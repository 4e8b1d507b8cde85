-- ===== src/Builder.antt =====
-- RTPPacketBuilder (src/rtppacketbuilder.h, src/rtppacketbuilder.cpp). Random numbers and the
-- current time are arguments of the calls that draw them; the type of times is a parameter. `fresh`
-- is the memory that RTPNew gives, uninitialised, or `none` where it fails.
pub mod Calls
pub mod CsrcArray
pub mod Csrcs
pub mod Stream
pub mod Order
pub mod Ssrc
use jrtplib.Prelude.{
  ℕ, zero, suc, ◌+◌, ◌-◌, ◌%◌, ◌^◌, Bool, true, false, not, ◌&&◌, ◌||◌, List, [], ◌∷◌, ◌++◌, Option,
  none, some, length, get_or, set, drop, ltb, leb, ◌==◌, if◌then◌else◌, Outcome, ok, err, fault,
  out_of_mem, packbuild_alreadyinit, packbuild_csrcalreadyinlist, packbuild_csrclistfull,
  packbuild_csrcnotinlist, packbuild_defaultmarknotset, packbuild_defaultpayloadtypenotset,
  packbuild_defaulttsincnotset, packbuild_invalidmaxpacketsize, packbuild_notinit,
}
use jrtplib.Rtp.Packet.{RtpPacket}
use jrtplib.Rtp.Packet.Build.{BuildArgs, new_packet_in_buffer}

pub record PacketBuilder (Time : Type 0) : Type 0 where
  pub init : Bool
  pub maxpacksize : ℕ
  pub buffer : List ℕ
  pub packetlength : ℕ
  pub numpayloadbytes : ℕ
  pub numpackets : ℕ
  pub ssrc : ℕ
  pub timestamp : ℕ
  pub seqnr : ℕ
  pub defaulttimestampinc : ℕ
  pub defaultpayloadtype : ℕ
  pub defaultmark : Bool
  pub deftsset : Bool
  pub defptset : Bool
  pub defmarkset : Bool
  -- The array of RTP_MAXCSRCS entries, of which the first `numcsrcs` are in use.
  pub csrcs : List ℕ
  pub numcsrcs : ℕ
  pub lastwallclocktime : Time
  pub lastrtptimestamp : ℕ
  pub prevrtptimestamp : ℕ

-- A method returns the object and the status; `ok tt` stands for 0.
abbrev pub Status : Type 0
Status = Outcome (Unit {0})

-- Drawing until the source table has no such entry; `none` if the given draws run out first.
unfoldable pub draw_ssrc : (ℕ → Bool) → List ℕ → Option ℕ
draw_ssrc got_entry [] = none
draw_ssrc got_entry (r ∷ rs) =
    let again = draw_ssrc got_entry rs in if got_entry r then again else some r

-- The search loop of AddCSRC and DeleteCSRC: the first index below `n` that holds `csrc`,
-- `i` entries having been passed.
unfoldable pub find_csrc : List ℕ → ℕ → ℕ → ℕ → Option ℕ
find_csrc csrcs zero csrc i = none
find_csrc csrcs (suc n) csrc i =
    let later = find_csrc csrcs n csrc (suc i) in if get_or csrcs i 0 == csrc then some i else later

module _ {Time : Type 0} where
  unfoldable pub create_new_ssrc : PacketBuilder Time → ℕ → ℕ → ℕ → PacketBuilder Time
  create_new_ssrc b random_ssrc random_timestamp random_seqnr = record b {
    ssrc = random_ssrc;
    timestamp = random_timestamp;
    seqnr = random_seqnr;
    numpayloadbytes = 0;
    numpackets = 0;
  }

  -- The overload that asks the source table.
  unfoldable pub create_new_ssrc_for :
      (ℕ → Bool) → PacketBuilder Time → List ℕ → ℕ → ℕ → Option (PacketBuilder Time)
  unfolding draw_ssrc create_new_ssrc
  create_new_ssrc_for got_entry b draws random_timestamp random_seqnr =
      elim (draw_ssrc got_entry draws) [
        | none ↦ none
        | some s ↦ some (create_new_ssrc b s random_timestamp random_seqnr)
      ]

  unfoldable pub init_builder :
      PacketBuilder Time → ℕ → Option (List ℕ) → ℕ → ℕ → ℕ → PacketBuilder Time × Status
  unfolding create_new_ssrc
  init_builder b max fresh random_ssrc random_timestamp random_seqnr =
      if b.init
      then (b, err packbuild_alreadyinit)
      else if max == 0
      then (b, err packbuild_invalidmaxpacketsize)
      else elim fresh [
        | none ↦ (record b { maxpacksize = max; buffer = [] }, err out_of_mem)
        | some memory ↦
            let sized : PacketBuilder Time = record b {
              maxpacksize = max;
              buffer = memory;
              packetlength = 0;
            } in
            (
              record (create_new_ssrc sized random_ssrc random_timestamp random_seqnr) {
                deftsset = false;
                defptset = false;
                defmarkset = false;
                numcsrcs = 0;
                init = true;
              },
              ok tt,
            )
      ]

  unfoldable pub destroy : PacketBuilder Time → PacketBuilder Time
  destroy b = if not b.init then b else record b { init = false }

  unfoldable pub set_maximum_packet_size :
      PacketBuilder Time → ℕ → Option (List ℕ) → PacketBuilder Time × Status
  set_maximum_packet_size b max fresh =
      if max == 0 then (b, err packbuild_invalidmaxpacketsize) else elim fresh [
        | none ↦ (b, err out_of_mem)
        | some memory ↦ (record b { buffer = memory; maxpacksize = max }, ok tt)
      ]

  unfoldable pub add_csrc : PacketBuilder Time → ℕ → PacketBuilder Time × Status
  add_csrc b csrc =
      if not b.init
      then (b, err packbuild_notinit)
      else if leb 15 b.numcsrcs
      then (b, err packbuild_csrclistfull)
      else elim (find_csrc b.csrcs b.numcsrcs csrc 0) [
        | some i ↦ (b, err packbuild_csrcalreadyinlist)
        | none ↦
            (record b { csrcs = set b.csrcs b.numcsrcs csrc; numcsrcs = b.numcsrcs + 1 }, ok tt)
      ]

  -- The last entry takes the place of the deleted one.
  unfoldable pub delete_csrc : PacketBuilder Time → ℕ → PacketBuilder Time × Status
  delete_csrc b csrc =
      if not b.init
      then (b, err packbuild_notinit)
      else elim (find_csrc b.csrcs b.numcsrcs csrc 0) [
        | none ↦ (b, err packbuild_csrcnotinlist)
        | some i ↦
            let last = b.numcsrcs - 1 in
            (
              record b {
                csrcs =
                    if ltb 0 last && not (last == i)
                    then set b.csrcs i (get_or b.csrcs last 0)
                    else b.csrcs;
                numcsrcs = last;
              },
              ok tt,
            )
      ]

  unfoldable pub clear_csrc_list : PacketBuilder Time → PacketBuilder Time
  clear_csrc_list b = if not b.init then b else record b { numcsrcs = 0 }

  unfoldable pub set_default_payload_type : PacketBuilder Time → ℕ → PacketBuilder Time × Status
  set_default_payload_type b pt =
      if not b.init
      then (b, err packbuild_notinit)
      else (record b { defptset = true; defaultpayloadtype = pt }, ok tt)

  unfoldable pub set_default_mark : PacketBuilder Time → Bool → PacketBuilder Time × Status
  set_default_mark b m =
      if not b.init
      then (b, err packbuild_notinit)
      else (record b { defmarkset = true; defaultmark = m }, ok tt)

  unfoldable pub set_default_timestamp_increment :
      PacketBuilder Time → ℕ → PacketBuilder Time × Status
  set_default_timestamp_increment b inc =
      if not b.init
      then (b, err packbuild_notinit)
      else (record b { deftsset = true; defaulttimestampinc = inc }, ok tt)

  unfoldable pub increment_timestamp : PacketBuilder Time → ℕ → PacketBuilder Time × Status
  increment_timestamp b inc =
      if not b.init
      then (b, err packbuild_notinit)
      else (record b { timestamp = (b.timestamp + inc) % 2 ^ 32 }, ok tt)

  unfoldable pub increment_timestamp_default : PacketBuilder Time → PacketBuilder Time × Status
  increment_timestamp_default b =
      if not b.init
      then (b, err packbuild_notinit)
      else if not b.deftsset
      then (b, err packbuild_defaulttsincnotset)
      else (record b { timestamp = (b.timestamp + b.defaulttimestampinc) % 2 ^ 32 }, ok tt)

  unfoldable pub adjust_ssrc : PacketBuilder Time → ℕ → PacketBuilder Time
  adjust_ssrc b s = record b { ssrc = s }

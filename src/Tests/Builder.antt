-- ===== src/Tests/Builder.antt =====
-- A packet builder: its CSRC list, and a run of calls.
use jrtplib.Prelude.{
  All, Bool, none, some, ◌==◌, ℕ, zero, suc, ◌<◌, ◌≡◌, ◌≢◌, ◌↔◌, ◌⊎◌, refl, true, false, [], ◌∷◌,
  length, ok, arith, get_or,
}
use jrtplib.Rtp.Packet.Build.{header_bytes}
use jrtplib.Rtp.Packet.Build
use jrtplib.Builder.{create_new_ssrc_for, PacketBuilder, find_csrc, add_csrc, delete_csrc}
use jrtplib.Builder.CsrcArray.{Listed, ValidCsrcs}
use jrtplib.Builder.Csrcs.{add_csrc_adds, delete_csrc_deletes, csrc_calls_succeed}
use jrtplib.Builder.Stream.{Call, send_all, SenderInRange}
use jrtplib.Builder.Ssrc.{FirstFree, create_new_ssrc_for-FirstFree}
use jrtplib.Builder.Order.{InSequence, Counted, send_all-InSequence}

abbrev builder : PacketBuilder ℕ
builder = record {
  init = true;
  maxpacksize = 100;
  buffer = [];
  packetlength = 0;
  numpayloadbytes = 0;
  numpackets = 0;
  ssrc = 77;
  timestamp = 500;
  seqnr = 65535;
  defaulttimestampinc = 160;
  defaultpayloadtype = 96;
  defaultmark = false;
  deftsset = true;
  defptset = true;
  defmarkset = true;
  csrcs = 4 ∷ 9 ∷ 2 ∷ 0 ∷ 0 ∷ 0 ∷ 0 ∷ 0 ∷ 0 ∷ 0 ∷ 0 ∷ 0 ∷ 0 ∷ 0 ∷ 0 ∷ [];
  numcsrcs = 3;
  lastwallclocktime = 0;
  lastrtptimestamp = 0;
  prevrtptimestamp = 0;
}

different : (i j : ℕ) → i < 3 → j < 3 → get_or builder.csrcs i 0 ≡ get_or builder.csrcs j 0 → i ≡ j
different zero zero h k e = refl
different zero (suc zero) h k e = absurd (omega arith)
different zero (suc (suc zero)) h k e = absurd (omega arith)
different (suc zero) zero h k e = absurd (omega arith)
different (suc zero) (suc zero) h k e = refl
different (suc zero) (suc (suc zero)) h k e = absurd (omega arith)
different (suc (suc zero)) zero h k e = absurd (omega arith)
different (suc (suc zero)) (suc zero) h k e = absurd (omega arith)
different (suc (suc zero)) (suc (suc zero)) h k e = refl
different (suc (suc (suc i))) j h k e = absurd (omega arith)
different i (suc (suc (suc j))) h k e = absurd (omega arith)

builder-ValidCsrcs : ValidCsrcs builder
builder-ValidCsrcs = record { room = refl; bounded = omega arith; distinct = different }

added_30 : (add_csrc builder 30).1 ≡ ok tt
unfolding add_csrc find_csrc
added_30 = refl

deleted_4 : (delete_csrc builder 4).1 ≡ ok tt
unfolding delete_csrc find_csrc
deleted_4 = refl

add_csrc_adds_example :
    ValidCsrcs (add_csrc builder 30).0
    × (¬ Listed builder 30)
    × ((d : ℕ) → Listed (add_csrc builder 30).0 d ↔ ((d ≡ 30) ⊎ Listed builder d))
add_csrc_adds_example = add_csrc_adds builder 30 builder-ValidCsrcs added_30

delete_csrc_deletes_example :
    ValidCsrcs (delete_csrc builder 4).0
    × Listed builder 4
    × ((d : ℕ) → Listed (delete_csrc builder 4).0 d ↔ (Listed builder d × (d ≢ 4)))
delete_csrc_deletes_example = delete_csrc_deletes builder 4 builder-ValidCsrcs deleted_4

csrc_calls_succeed_example :
    (((add_csrc builder 9).1 ≡ ok tt) ↔ ((3 < 15) × (¬ Listed builder 9)))
    × (((delete_csrc builder 9).1 ≡ ok tt) ↔ Listed builder 9)
    × ((add_csrc builder 9).1 ≢ ok tt → (add_csrc builder 9).0 ≡ builder)
    × ((delete_csrc builder 9).1 ≢ ok tt → (delete_csrc builder 9).0 ≡ builder)
csrc_calls_succeed_example = csrc_calls_succeed builder 9 refl

abbrev one_call : Call ℕ
one_call = record {
  payload = record {
    bytes = 1 ∷ 2 ∷ [];
    gotextension = false;
    hdrext_id = 0;
    hdrext_words = 0;
    hdrext_bytes = [];
  };
  given = some (record { pt = 96; mark = false; timestampinc = 160 });
  now = 3;
}

-- Its payload type is that of a sender report.
abbrev refused_call : Call ℕ
refused_call = record one_call {
  given = some (record { pt = 72; mark = false; timestampinc = 160 });
}

-- It takes the builder's defaults.
abbrev default_call : Call ℕ
default_call = record one_call { given = none }

builder-SenderInRange : SenderInRange builder
builder-SenderInRange = record {
  seqnr = omega arith;
  timestamp = omega arith;
  ssrc = omega arith;
  numpackets = omega arith;
  csrcs = ground arith;
}

send_all-InSequence_example :
    InSequence 77 65535 (send_all builder (one_call ∷ refused_call ∷ default_call ∷ [])).1
    × Counted builder
        (send_all builder (one_call ∷ refused_call ∷ default_call ∷ [])).0
        (length (send_all builder (one_call ∷ refused_call ∷ default_call ∷ [])).1)
send_all-InSequence_example =
    send_all-InSequence builder (one_call ∷ refused_call ∷ default_call ∷ []) builder-SenderInRange
      (omega arith) (omega arith, (omega arith, (omega arith, tt)))

-- The number 77 is in use.
abbrev in_use : ℕ → Bool
in_use n = n == 77

create_new_ssrc_for-FirstFree_example :
    (create_new_ssrc_for in_use builder (77 ∷ 78 ∷ 79 ∷ []) 1 2 ≡ none
      ↔ All (λ r. in_use r ≡ true) (77 ∷ 78 ∷ 79 ∷ []))
    × ((b : PacketBuilder ℕ)
        → create_new_ssrc_for in_use builder (77 ∷ 78 ∷ 79 ∷ []) 1 2 ≡ some b
        → FirstFree in_use (77 ∷ 78 ∷ 79 ∷ []) b.ssrc
          × (b.numpackets ≡ 0)
          × (b.numpayloadbytes ≡ 0))
create_new_ssrc_for-FirstFree_example =
    create_new_ssrc_for-FirstFree in_use builder (77 ∷ 78 ∷ 79 ∷ []) 1 2

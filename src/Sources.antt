-- ===== src/Sources.antt =====
-- RTPSources (src/rtpsources.h, src/rtpsources.cpp): the table of sources, its counters, the
-- application's own source and the timeouts. The RTPKeyHashTable of the sources is the list of its
-- elements in the order of the table's own list, and a pointer to a source is the source's SSRC. The
-- calls of the virtual functions of CreateOwnSSRC, DeleteOwnSSRC and the timeouts' loops are listed.
-- The counters are int in the source and numbers from 0 here. Random numbers, the clock and memory are
-- arguments.
pub mod Counted
pub mod Timeouts
pub mod Leave
pub mod Kept
pub mod Runs
pub mod Csrcs
use jrtplib.Prelude.{
  ℕ, suc, ◌+◌, ◌-◌, Bool, true, false, not, ◌&&◌, List, [], ◌∷◌, ◌++◌, Option, none, some, length,
  ◌==◌, bit, if◌then◌else◌, Outcome, ok, err, out_of_mem, sources_alreadyhaveownssrc,
  sources_donthaveownssrc, sources_ssrcexists,
}
use jrtplib.Sdes.{Status, new_sdes_info, set_non_private_item, get_non_private_item}
use jrtplib.Source.Doubles.{DoubleOps}
use jrtplib.Source.Stats.{SourceStats, new_stats}
use jrtplib.Source.Data.{
  SourceData, ProbationType, set_own_ssrc, set_csrc, clear_sender_flag, is_active,
}

-- A call of a virtual function, with the SSRC of the source.
pub data Event : Type 0 where
  on_new_source : ℕ → Event
  on_remove_source : ℕ → Event
  on_timeout : ℕ → Event
  on_bye_timeout : ℕ → Event
  on_note_timeout : ℕ → Event

pub record SourceTable (Double : Type 0) : Type 0 where
  pub sourcelist : List (SourceData Double)
  pub owndata : Option ℕ
  pub totalcount : ℕ
  pub sendercount : ℕ
  pub activecount : ℕ
  pub probationtype : ProbationType

-- What a loop over the sources does with one: it stays, perhaps changed, or is deleted.
pub data Verdict (Double : Type 0) : Type 0 where
  keep : SourceData Double → List Event → Verdict Double
  remove : List Event → Verdict Double

module _ {Double : Type 0} (ops : DoubleOps Double) where
  open ops use {lt, of_uint32, neg, sub}

  abbrev pub new_table : ProbationType → SourceTable Double
  new_table p = record {
    sourcelist = [];
    owndata = none;
    totalcount = 0;
    sendercount = 0;
    activecount = 0;
    probationtype = p;
  }

  abbrev pub clear_source_list : SourceTable Double → SourceTable Double
  clear_source_list t = new_table t.probationtype

  -- The constructor of RTPInternalSourceData.
  abbrev pub new_source : ℕ → ProbationType → SourceData Double
  new_source ssrc p = record {
    packetlist = [];
    ssrc = ssrc;
    ownssrc = false;
    iscsrc = false;
    timestampunit = neg (of_uint32 1);
    receivedbye = false;
    validated = false;
    processedinrtcp = false;
    issender = false;
    stats = new_stats ops;
    sdesinf = new_sdes_info;
    byetime = of_uint32 0;
    byereason = none;
    probationtype = p;
  }

  -- GotoElement.
  unfoldable pub find_source : List (SourceData Double) → ℕ → Option (SourceData Double)
  find_source [] ssrc = none
  find_source (d ∷ ds) ssrc =
      let later = find_source ds ssrc in if d.ssrc == ssrc then some d else later

  unfoldable pub got_entry : List (SourceData Double) → ℕ → Bool
  unfolding find_source
  got_entry ds ssrc = elim (find_source ds ssrc) [ none ↦ false | some d ↦ true ]

  -- The source of this SSRC is changed in place.
  unfoldable pub change_source :
      List (SourceData Double)
      → ℕ
      → (SourceData Double → SourceData Double)
      → List (SourceData Double)
  change_source [] ssrc f = []
  change_source (d ∷ ds) ssrc f = if d.ssrc == ssrc then f d ∷ ds else d ∷ change_source ds ssrc f

  -- GotoElement and DeleteCurrentElement.
  unfoldable pub delete_source : List (SourceData Double) → ℕ → List (SourceData Double)
  delete_source [] ssrc = []
  delete_source (d ∷ ds) ssrc = if d.ssrc == ssrc then ds else d ∷ delete_source ds ssrc

  -- ObtainSourceDataInstance: the table and `created`.
  unfoldable pub obtain_source :
      SourceTable Double → (given : Bool) → ℕ → Outcome (SourceTable Double × Bool)
  unfolding got_entry
  obtain_source t given ssrc =
      if got_entry t.sourcelist ssrc
      then ok (t, false)
      else if not given
      then err out_of_mem
      else ok (
        record t {
          sourcelist = t.sourcelist ++ (new_source ssrc t.probationtype ∷ []);
          totalcount = t.totalcount + 1;
        },
        true,
      )

  -- The rest of CreateOwnSSRC, once the source is there.
  abbrev pub own_created : SourceTable Double → ℕ → SourceTable Double
  own_created t ssrc = record t {
    sourcelist = change_source t.sourcelist ssrc (set_own_ssrc ops);
    owndata = some ssrc;
    activecount = t.activecount + 1;
  }

  unfoldable pub create_own_ssrc :
      SourceTable Double → (given : Bool) → ℕ → SourceTable Double × Status × List Event
  unfolding obtain_source
  create_own_ssrc t given ssrc = elim t.owndata [
    | some own ↦ (t, err sources_alreadyhaveownssrc, [])
    | none ↦
        if got_entry t.sourcelist ssrc
        then (t, err sources_ssrcexists, [])
        else elim (obtain_source t given ssrc) [
          | ok (t', created) ↦ (own_created t' ssrc, ok tt, on_new_source ssrc ∷ [])
          | err e ↦ (t, err e, [])
          | Outcome.fault ↦ (t, Outcome.fault, [])
        ]
  ]

  -- DeleteOwnSSRC, once the own source is found.
  abbrev pub own_deleted : SourceTable Double → ℕ → SourceData Double → SourceTable Double
  own_deleted t ssrc d = record t {
    sourcelist = delete_source t.sourcelist ssrc;
    owndata = none;
    totalcount = t.totalcount - 1;
    sendercount = t.sendercount - bit d.issender;
    activecount = t.activecount - bit (is_active ops d);
  }

  unfoldable pub delete_own_ssrc : SourceTable Double → SourceTable Double × Status × List Event
  unfolding find_source
  delete_own_ssrc t = elim t.owndata [
    | none ↦ (t, err sources_donthaveownssrc, [])
    | some ssrc ↦ elim (find_source t.sourcelist ssrc) [
      | none ↦ (t, Outcome.fault, [])
      | some d ↦ (own_deleted t ssrc d, ok tt, on_remove_source ssrc ∷ [])
    ]
  ]

  -- RTPInternalSourceData::SentRTPPacket at this time.
  abbrev pub packet_sent : Double → SourceData Double → SourceData Double
  packet_sent now d = if not d.ownssrc then d else record d {
    issender = true;
    stats = record d.stats { lastrtptime = now; lastmsgtime = now };
  }

  unfoldable pub sent_rtp_packet : SourceTable Double → Double → SourceTable Double
  unfolding find_source change_source
  sent_rtp_packet t now = elim t.owndata [
    | none ↦ t
    | some ssrc ↦ elim (find_source t.sourcelist ssrc) [
      | none ↦ t
      | some d ↦ record t {
        sourcelist = change_source t.sourcelist ssrc (packet_sent now);
        sendercount = t.sendercount + bit (not d.issender && (packet_sent now d).issender);
      }
    ]
  ]

  -- What the loop of a timeout gives: the sources that stay, their counts, and the calls.
  pub record Sweep : Type 0 where
    pub kept : List (SourceData Double)
    pub newtotalcount : ℕ
    pub newsendercount : ℕ
    pub newactivecount : ℕ
    pub events : List Event

  -- The loop over the sources, which counts those that stay.
  unfoldable pub sweep_one : Verdict Double → Sweep → Sweep
  unfolding is_active
  sweep_one (remove events) rest = record rest { events = events ++ rest.events }
  sweep_one (keep d events) rest = record {
    kept = d ∷ rest.kept;
    newtotalcount = rest.newtotalcount + 1;
    newsendercount = rest.newsendercount + bit d.issender;
    newactivecount = rest.newactivecount + bit (is_active ops d);
    events = events ++ rest.events;
  }

  unfoldable pub sweep : (SourceData Double → Verdict Double) → List (SourceData Double) → Sweep
  unfolding sweep_one
  sweep verdict [] = record {
    kept = [];
    newtotalcount = 0;
    newsendercount = 0;
    newactivecount = 0;
    events = [];
  }
  sweep verdict (d ∷ ds) = sweep_one (verdict d) (sweep verdict ds)

  -- The counters are set to the new counts; what was subtracted on the way is lost.
  unfoldable pub swept :
      SourceTable Double → (SourceData Double → Verdict Double) → SourceTable Double
  unfolding sweep
  swept t verdict =
      let s = sweep verdict t.sourcelist in
      record t {
        sourcelist = s.kept;
        totalcount = s.newtotalcount;
        sendercount = s.newsendercount;
        activecount = s.newactivecount;
      }

  abbrev pub is_own : Option ℕ → SourceData Double → Bool
  is_own none d = false
  is_own (some ssrc) d = d.ssrc == ssrc

  -- The loop bodies of Timeout, SenderTimeout, BYETimeout and NoteTimeout, for a check time.
  unfoldable pub timeout_verdict : Option ℕ → Double → SourceData Double → Verdict Double
  timeout_verdict own checktime d =
      if not (is_own own d) && lt d.stats.lastmsgtime checktime
      then remove (on_timeout d.ssrc ∷ on_remove_source d.ssrc ∷ [])
      else keep d []

  unfoldable pub sender_verdict : Double → SourceData Double → Verdict Double
  unfolding clear_sender_flag
  sender_verdict checktime d =
      if d.issender && lt d.stats.lastrtptime checktime
      then keep (clear_sender_flag ops d) []
      else keep d []

  unfoldable pub bye_verdict : Option ℕ → Double → SourceData Double → Verdict Double
  bye_verdict own checktime d =
      if d.receivedbye && (not (is_own own d) && lt d.byetime checktime)
      then remove (on_bye_timeout d.ssrc ∷ on_remove_source d.ssrc ∷ [])
      else keep d []

  -- ClearNote.
  unfoldable pub clear_note : SourceData Double → SourceData Double
  unfolding set_non_private_item
  clear_note d = record d { sdesinf = (set_non_private_item d.sdesinf 6 true []).0 }

  abbrev pub note_timed_out : Double → SourceData Double → Bool
  note_timed_out checktime d =
      not (length (get_non_private_item d.sdesinf 6) == 0) && lt d.stats.lastnotetime checktime

  unfoldable pub note_verdict : Double → SourceData Double → Verdict Double
  unfolding clear_note
  note_verdict checktime d =
      if note_timed_out checktime d
      then keep (clear_note d) (on_note_timeout d.ssrc ∷ [])
      else keep d []

  unfoldable pub timeout : SourceTable Double → (curtime timeoutdelay : Double) → SourceTable Double
  unfolding swept
  timeout t curtime timeoutdelay = swept t (timeout_verdict t.owndata (sub curtime timeoutdelay))

  unfoldable pub sender_timeout :
      SourceTable Double → (curtime timeoutdelay : Double) → SourceTable Double
  unfolding swept
  sender_timeout t curtime timeoutdelay = swept t (sender_verdict (sub curtime timeoutdelay))

  unfoldable pub bye_timeout :
      SourceTable Double → (curtime timeoutdelay : Double) → SourceTable Double
  unfolding swept
  bye_timeout t curtime timeoutdelay = swept t (bye_verdict t.owndata (sub curtime timeoutdelay))

  unfoldable pub note_timeout :
      SourceTable Double → (curtime timeoutdelay : Double) → SourceTable Double
  unfolding swept
  note_timeout t curtime timeoutdelay = swept t (note_verdict (sub curtime timeoutdelay))

  -- The four check times of MultipleTimeouts.
  pub record CheckTimes : Type 0 where
    pub senderchecktime : Double
    pub byechecktime : Double
    pub generalchecktime : Double
    pub notechecktime : Double

  -- The loop body of MultipleTimeouts behind the note: `noted` is the source then, and `notetimeout`
  -- whether its note was cleared.
  abbrev pub multiple_rest :
      Option ℕ → CheckTimes → SourceData Double → (notetimeout : Bool) → Verdict Double
  multiple_rest own c noted notetimeout =
      if noted.receivedbye && (not (is_own own noted) && lt noted.byetime c.byechecktime)
      then remove (on_bye_timeout noted.ssrc ∷ on_remove_source noted.ssrc ∷ [])
      else if not (is_own own noted) && lt noted.stats.lastmsgtime c.generalchecktime
      then remove (on_timeout noted.ssrc ∷ on_remove_source noted.ssrc ∷ [])
      else keep
          (if noted.issender && lt noted.stats.lastrtptime c.senderchecktime
            then clear_sender_flag ops noted
            else noted)
          (if notetimeout then on_note_timeout noted.ssrc ∷ [] else [])

  unfoldable pub multiple_verdict : Option ℕ → CheckTimes → SourceData Double → Verdict Double
  unfolding clear_note
  multiple_verdict own c d =
      if note_timed_out c.notechecktime d
      then multiple_rest own c (clear_note d) true
      else multiple_rest own c d false

  unfoldable pub multiple_timeouts :
      SourceTable Double
      → (curtime sendertimeout byetimeout generaltimeout notetimeout : Double) → SourceTable Double
  unfolding swept
  multiple_timeouts t curtime sendertimeout byetimeout generaltimeout notetimeout = swept t (
      multiple_verdict t.owndata (record {
        senderchecktime = sub curtime sendertimeout;
        byechecktime = sub curtime byetimeout;
        generalchecktime = sub curtime generaltimeout;
        notechecktime = sub curtime notetimeout;
      }))

  -- One CSRC of the loop behind a valid packet in ProcessRTPPacket. Whether CheckCollision finds a
  -- collision is an argument. The call of OnNewSource is left out.
  unfoldable pub process_csrc :
      SourceTable Double → (given collides : Bool) → ℕ → Outcome (SourceTable Double)
  unfolding obtain_source change_source
  process_csrc t given collides ssrc = elim (obtain_source t given ssrc) [
    | err e ↦ err e
    | Outcome.fault ↦ Outcome.fault
    | ok (t', true) ↦ ok (record t' {
      sourcelist = change_source t'.sourcelist ssrc (set_csrc ops);
      activecount =
          t'.activecount + bit (is_active ops (set_csrc ops (new_source ssrc t.probationtype)));
    })
    | ok (t', false) ↦ ok (
        if collides
        then t'
        else record t' { sourcelist = change_source t'.sourcelist ssrc (set_csrc ops) })
  ]

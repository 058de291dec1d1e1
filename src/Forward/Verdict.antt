-- ===== src/Forward/Verdict.antt =====
-- What a forward test returns, by a description that needs no dictionary of groups.
use open_quant_studio.Base.{
  sym, ◌∙◌, ℕ, ◌≡◌, ◌↔◌, refl, inl, inr, Bool, true, false, Option, none, some, List, [], ◌∷◌,
  arith, if◌then◌else◌, length, All, All-map, Bool-cases,
}
use open_quant_studio.Base.Int.{pos}
use open_quant_studio.Formal.Protocol.{MarketBar, Stamped, Process, object, bar_list}
use open_quant_studio.Formal.Host.{run_strategy_host}
use open_quant_studio.Formal.Timing.{InSlot, host_stamps}
use open_quant_studio.Forward.{
  get_group, empty_groups, Status, passed, failed, ErrorCode, Identity, source_run_not_succeeded,
  strategy_protocol_failed, transcript_integrity_mismatch, ForwardReplayResult, bytes_eq, result_of,
  after_host, replay_forward_test,
}
use open_quant_studio.Forward.Grouping.{
  known_at, observations_of, fill-total, slot-IsEmpty, bars-keep, bars-IsEmpty, observe-lem,
}

some_status :
    (r s : ForwardReplayResult) → some r ≡ some s → r.transcript.status ≡ s.transcript.status
some_status r s e = cc

bytes_eq→eq : (s t : List ℕ) → bytes_eq s t ≡ true → s ≡ t
unfolding bytes_eq
bytes_eq→eq [] [] h = refl
bytes_eq→eq [] (b ∷ t) h = absurd (ground arith)
bytes_eq→eq (a ∷ s) [] h = absurd (ground arith)
bytes_eq→eq (a ∷ s) (b ∷ t) h = ground (arith, bytes_eq→eq s t)

bytes_eq_refl : (s : List ℕ) → bytes_eq s s ≡ true
unfolding bytes_eq
bytes_eq_refl [] = refl
bytes_eq_refl (a ∷ s) = ground (arith, bytes_eq_refl s)

zero_empty : get_group (pos 0) ((pos 0, []) ∷ []) ≡ some []
unfolding get_group
zero_empty = refl

module _ (encode : List Stamped → List ℕ) (sha256 : List ℕ → ℕ) (identity : Identity)
    (source_intent_tape : List ℕ) where
  -- A result over the bars that were released, for a tape.
  abbrev pub report :
      List MarketBar → List Stamped → Status → Option ErrorCode → ForwardReplayResult
  report bars tape status error_code = record {
    intent_tape = encode tape;
    transcript = record {
      identity = identity;
      start_intent_group = known_at (pos 0) tape;
      bar_observations = observations_of 0 tape bars;
      released_bar_count = length bars;
      source_intent_tape_byte_size = length source_intent_tape;
      intent_tape_sha256 = sha256 (encode tape);
      intent_tape_byte_size = length (encode tape);
      status = status;
      error_code = error_code;
    };
  }

  -- What a forward test ought to return, by what the host has returned.
  abbrev pub expected : Bool → List MarketBar → Option (List Stamped) → ForwardReplayResult
  expected false bars host = report [] [] failed (some source_run_not_succeeded)
  expected true bars none = report [] [] failed (some strategy_protocol_failed)
  expected true bars (some tape) =
      if bytes_eq (encode tape) source_intent_tape
      then report bars tape passed none
      else report bars tape failed (some transcript_integrity_mismatch)

  result-report :
      (bars : List MarketBar) (tape : List Stamped) (status : Status)
      (error_code : Option ErrorCode)
      → All (InSlot (pos 0) bars) tape
      → result_of encode sha256 identity source_intent_tape bars tape
          (length bars)
          status
          error_code
        ≡ some (report bars tape status error_code)
  unfolding result_of
  result-report bars tape status error_code slots =
      let groups = empty_groups bars in
      let start = bars-keep bars (pos 0) ((pos 0, []) ∷ []) (zero_empty) in
      let empty = bars-IsEmpty bars ((pos 0, []) ∷ []) in
      let (filled, done, grows) = fill-total tape groups (
        All-map (InSlot (pos 0) bars) _ tape
          (λ s i. ([], slot-IsEmpty bars (pos 0) groups s start empty i)) slots) in
      rw
        (
          done,
          grows (pos 0) [] start,
          observe-lem bars tape 0 filled
              (All-map _ _ bars (λ bar e. grows bar.session_seq [] e) empty),
        )
        refl

  unsucceeded :
      (process : Process) (token : ℕ → ℕ) (bars : List MarketBar) (intents : Option (List Stamped))
      → replay_forward_test encode sha256 identity source_intent_tape process token false
          (object (bar_list bars) intents)
        ≡ some (report [] [] failed (some source_run_not_succeeded))
  unfolding replay_forward_test
  unsucceeded process token bars intents =
      result-report [] [] failed (some source_run_not_succeeded) tt

  judged :
      (bars : List MarketBar) (host : Option (List Stamped))
      → ((tape : List Stamped) → host ≡ some tape → All (InSlot (pos 0) bars) tape)
      → after_host encode sha256 identity source_intent_tape bars host
        ≡ some (expected true bars host)
  unfolding after_host
  judged bars none slots = result-report [] [] failed (some strategy_protocol_failed) tt
  judged bars (some tape) slots = elim (Bool-cases (bytes_eq (encode tape) source_intent_tape)) [
    | inl e ↦ rw e (result-report bars tape passed none (slots tape refl))
    | inr e ↦
        rw e (result-report bars tape failed (some transcript_integrity_mismatch) (slots tape refl))
  ]

  -- A forward test of a market input with a list of bars never raises, and its result is the
  -- expected one: under each session the intents known there, in the order of the tape.
  pub replay_total :
      (process : Process) (token : ℕ → ℕ) (is_succeeded : Bool) (bars : List MarketBar)
      (intents : Option (List Stamped))
      → replay_forward_test encode sha256 identity source_intent_tape process token is_succeeded
          (object (bar_list bars) intents)
        ≡ some (
            expected is_succeeded bars
              (run_strategy_host process token (object (bar_list bars) intents)))
  unfolding replay_forward_test
  replay_total process token false bars intents = unsucceeded process token bars intents
  replay_total process token true bars intents =
      judged bars (run_strategy_host process token (object (bar_list bars) intents))
        (λ tape e. (host_stamps process token bars intents tape e).0)

  passed→same :
      (is_succeeded : Bool) (bars : List MarketBar) (host : Option (List Stamped))
      → (expected is_succeeded bars host).transcript.status ≡ passed
      → (is_succeeded ≡ true)
        × (tape : List Stamped) × (host ≡ some tape)
        × (encode tape ≡ source_intent_tape)
  passed→same false bars host h = absurd (ground arith)
  passed→same true bars none h = absurd (ground arith)
  passed→same true bars (some tape) h =
      elim (Bool-cases (bytes_eq (encode tape) source_intent_tape)) [
        | inl e ↦ (refl, tape, refl, bytes_eq→eq (encode tape) source_intent_tape e)
        | inr e ↦ absurd (ground (arith, e))
      ]

  -- A forward test passes exactly where the source run has succeeded and the host has returned a
  -- tape whose encoding is the source's tape, byte for byte.
  pub replay_passed_iff :
      (process : Process) (token : ℕ → ℕ) (is_succeeded : Bool) (bars : List MarketBar)
      (intents : Option (List Stamped))
      → ((result : ForwardReplayResult) × (replay_forward_test encode sha256 identity
              source_intent_tape process token is_succeeded
              (object (bar_list bars) intents)
            ≡ some result)
          × (result.transcript.status ≡ passed))
        ↔ ((is_succeeded ≡ true)
            × (tape : List Stamped) × (run_strategy_host process token
                  (object (bar_list bars) intents)
                ≡ some tape)
            × (encode tape ≡ source_intent_tape))
  replay_passed_iff process token is_succeeded bars intents =
      let host = run_strategy_host process token (object (bar_list bars) intents) in
      let total = replay_total process token is_succeeded bars intents in
      (
        λ (result, ran, ok).
            passed→same is_succeeded bars host
              (some_status (expected is_succeeded bars host) result (sym total ∙ ran) ∙ ok),
        λ (ok, tape, e, same). (
          expected is_succeeded bars host,
          total,
          rw (ok, e, same, bytes_eq_refl source_intent_tape) refl,
        ),
      )

-- ===== src/Formal/Verdicts.antt =====
-- What the gates of a formal run and its error code say.
use open_quant_studio.Base.{
  sym, Bool-cases, inl, inr, ap, ℕ, ◌≡◌, refl, true, Option, none, some, List, [], ◌∷◌, arith,
}
use open_quant_studio.Formal.Protocol.{Stamped, Process, Bars, object}
use open_quant_studio.Formal.Host.{run_strategy_host}
use open_quant_studio.Formal.Gates.{
  passed, Engine, ParsedResult, dict, not_dict, opt_is, check_result, smoke_run, import_strategy,
  FormalExecution, stamped_eq, tape_eq, execute_formal_run,
}

stamped_eq→eq : (a b : Stamped) → stamped_eq a b ≡ true → a ≡ b
stamped_eq→eq a b h = ground arith

pub tape_eq→eq : (s t : List Stamped) → tape_eq s t ≡ true → s ≡ t
unfolding tape_eq
tape_eq→eq [] [] h = refl
tape_eq→eq [] (b ∷ t) h = absurd (ground arith)
tape_eq→eq (a ∷ s) [] h = absurd (ground arith)
tape_eq→eq (a ∷ s) (b ∷ t) h = ground (arith, stamped_eq→eq a b, tape_eq→eq s t)

opt_is→eq : (n : ℕ) (m : Option ℕ) → opt_is n m ≡ true → m ≡ some n
opt_is→eq n m h = ground arith

abbrev pub succeeded : ℕ → List Stamped → FormalExecution
succeeded result emitted = record {
  engine_result = some result;
  gates = record { contract = passed; strategy_import = passed; smoke_run = passed };
  error_code = none;
  intent_tape = some emitted;
}

module _ (process : Process) (token : ℕ → ℕ) (engine : Engine)
    (engine_version schema_version : ℕ) where
  check-success :
      (emitted : List Stamped) (result : ℕ) (r : ParsedResult)
      → (check_result process token engine engine_version schema_version emitted result
          r).error_code
        ≡ none
      → (r ≡ dict (some schema_version) (some engine_version))
        × (check_result process token engine engine_version schema_version emitted result r
            ≡ succeeded result emitted)
  unfolding check_result
  check-success emitted result not_dict h = absurd (ground arith)
  check-success emitted result (dict s v) h =
      ground (arith, opt_is→eq schema_version s, opt_is→eq engine_version v)

  smoke-success :
      (emitted : List Stamped) (r : Option ℕ)
      → engine.run ≡ r
      → (smoke_run process token engine engine_version schema_version emitted r).error_code ≡ none
      → (result : ℕ) × (engine.run ≡ some result)
        × (engine.parse result ≡ dict (some schema_version) (some engine_version))
        × (smoke_run process token engine engine_version schema_version emitted r
            ≡ succeeded result emitted)
  unfolding smoke_run
  smoke-success emitted none e h = absurd (ground arith)
  smoke-success emitted (some result) e h =
      let (parsed, same) = check-success emitted result (engine.parse result) h in
      (result, e, parsed, same)

  import-success :
      (intents r : Option (List Stamped))
      → (import_strategy process token engine engine_version schema_version intents r).error_code
        ≡ none
      → (emitted : List Stamped) × (result : ℕ) × (r ≡ some emitted)
        × (intents ≡ some emitted)
        × (engine.run ≡ some result)
        × (engine.parse result ≡ dict (some schema_version) (some engine_version))
        × (import_strategy process token engine engine_version schema_version intents r
            ≡ succeeded result emitted)
  unfolding import_strategy
  import-success intents none h = absurd (ground arith)
  import-success none (some emitted) h = absurd (ground arith)
  import-success (some given) (some emitted) h = elim (Bool-cases (tape_eq emitted given)) [
    | inr e ↦ absurd (ground arith)
    | inl e ↦
        let (result, ran, parsed, same) = smoke-success emitted engine.run refl (rw e at h) in
        (emitted, result, refl, ap some (sym (tape_eq→eq emitted given e)), ran, parsed, rw e same)
  ]

  -- An execution has no error code only if the strategy's host has returned exactly the intents of
  -- the input, the engine has run, and its result has the expected versions; all gates have then
  -- passed, and the execution has the engine's result and the intents as its tape.
  pub execute_success :
      (bars : Bars) (intents : Option (List Stamped))
      → (execute_formal_run process token engine engine_version schema_version
          (object bars intents)).error_code
        ≡ none
      → (emitted : List Stamped) × (result : ℕ) × (run_strategy_host process token
            (object bars intents)
          ≡ some emitted)
        × (intents ≡ some emitted)
        × (engine.run ≡ some result)
        × (engine.parse result ≡ dict (some schema_version) (some engine_version))
        × (execute_formal_run process token engine engine_version schema_version
              (object bars intents)
            ≡ succeeded result emitted)
  unfolding execute_formal_run
  execute_success bars intents h = import-success intents _ h

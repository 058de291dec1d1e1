-- ===== src/Domain/Outcome.antt =====
-- The exceptions of domain.py, and code that reads and writes the tables and may raise.
use open_quant_studio.Base.{◌≡◌, refl, Bool, true, false, Option, none, some}

pub data Error : Type 0 where
  contract_violation domain_conflict command_id_conflict context_conflict job_transition_conflict
        formal_run_lifecycle_conflict artifact_blob_missing artifact_integrity_mismatch
        session_identity_conflict message_receipt_conflict message_access_denied revision_conflict
        promotion_conflict event_contract_error integrity_error type_error :
      Error

-- `S` is the database within a transaction.
pub data Result (A : Type 0) : Type 0 where
  ok : A → Result A
  err : Error → Result A

abbrev pub Action : Type 0 → Type 0 → Type 0
Action S A = S → Result (A × S)

module _ {S : Type 0} {A : Type 0} where
  abbrev pub pure : A → Action S A
  pure a s = ok (a, s)

  abbrev pub raise : Error → Action S A
  raise e s = err e

  abbrev pub gets : (S → A) → Action S A
  gets f s = ok (f s, s)

  abbrev pub or_raise : Option A → Error → Action S A
  or_raise none e = raise e
  or_raise (some a) e = pure a

module _ {S : Type 0} where
  abbrev pub modify : (S → S) → Action S (Unit {0})
  modify f s = ok (tt, f s)

  abbrev pub raise_if : Bool → Error → Action S (Unit {0})
  raise_if true e s = err e
  raise_if false e s = ok (tt, s)

module _ {S : Type 0} {A B : Type 0} where
  infixl 5 ◌>>=◌ ◌>>◌
  abbrev pub ◌>>=◌ : Action S A → (A → Action S B) → Action S B
  ◌>>=◌ m f s = elim (m s) [ ok (a, s') ↦ f a s' | err e ↦ err e ]

  abbrev pub ◌>>◌ : Action S A → Action S B → Action S B
  m >> k = m >>= λ _. k

-- What holds of the value and the database if the code does not raise.
abbrev pub OnOk : {S A : Type 0} → (A → S → Type 0) → Result (A × S) → Type 0
OnOk P (ok (a, s)) = P a s
OnOk P (err e) = Unit

module _ {S : Type 0} {A B : Type 0} where
  pub OnOk->>= :
      (P : A → S → Type 0) (Q : B → S → Type 0) (m : Action S A) (f : A → Action S B) (s : S)
      → OnOk P (m s)
      → ((a : A) (t : S) → P a t → OnOk Q (f a t))
      → OnOk Q ((m >>= f) s)
  OnOk->>= P Q m f s h k = go (m s) h
    where
      go : (r : Result (A × S)) → OnOk P r → OnOk Q (elim r [ ok (a, s') ↦ f a s' | err e ↦ err e ])
      go (ok (a, t)) h = k a t h
      go (err e) h = tt

pub OnOk-of-ok :
    {S A : Type 0} (P : A → S → Type 0) (r : Result (A × S))
    → ((a : A) (s : S) → r ≡ ok (a, s) → P a s)
    → OnOk P r
OnOk-of-ok P (ok (a, s)) h = h a s refl
OnOk-of-ok P (err e) h = tt

pub OnOk-at :
    {S A : Type 0} (P : A → S → Type 0) (r : Result (A × S)) (a : A) (s : S)
    → OnOk P r
    → r ≡ ok (a, s)
    → P a s
OnOk-at P r a s h e = rw e at h

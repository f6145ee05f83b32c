-- ===== src/Ledger/Data.antt =====
-- The tables of storage/data_meta.py that hold update scopes, provider checks, runs, leases and API
-- calls. Text that the code only stores, compares or orders (names, hashes, run ids, messages, ISO
-- dates and times) is a number; NULL is `none`.
use bagelquant_data.Prelude.{
  ◌≡◌, ℕ, Bool, true, false, ◌&&◌, Option, none, some, List, [], ◌∷◌, ◌==◌,
}

-- The CHECK constraint on `update_scopes.status`.
pub data Status : Type 0 where
  pending running success empty failed invalid : Status

abbrev pub is_running : Status → Bool
is_running Status.running = true
is_running _ = false

-- `status in ('success','empty')`
abbrev pub is_complete : Status → Bool
is_complete Status.success = true
is_complete Status.empty = true
is_complete _ = false

-- `status in ('failed','invalid','empty','success')`
abbrev pub is_outcome : Status → Bool
is_outcome Status.pending = false
is_outcome Status.running = false
is_outcome _ = true

-- A row of `update_scopes`.
pub record Scope : Type 0 where
  pub id : ℕ
  pub source : ℕ
  pub dataset : ℕ
  pub scope_kind : ℕ
  pub scope_key : ℕ
  pub variant_hash : ℕ
  pub status : Status
  pub initial_start : Option ℕ
  pub checked_through : Option ℕ
  pub data_max_time : Option ℕ
  pub row_count : ℕ
  pub attempt_count : ℕ
  pub last_attempt_at : Option ℕ
  pub last_success_at : Option ℕ
  pub recheck_after : Option ℕ
  pub last_error : Option ℕ
  pub spec_hash : ℕ
  pub active_run_id : Option ℕ
  pub commit_run_id : Option ℕ
  pub created_at : ℕ
  pub updated_at : ℕ

-- `last_result in ('empty','nonempty')`
pub data CheckResult : Type 0 where
  was_empty was_nonempty : CheckResult

-- A row of `provider_scope_checks`.
pub record Check : Type 0 where
  pub scope_id : ℕ
  pub checked_through : ℕ
  pub last_checked_at : ℕ
  pub recheck_after : Option ℕ
  pub last_result : CheckResult

-- `finished` is any status but 'running' and 'cancelled', which `finalize_run` writes.
pub data RunStatus : Type 0 where
  active cancelled finished : RunStatus

abbrev pub run_is_active : RunStatus → Bool
run_is_active RunStatus.active = true
run_is_active _ = false

-- A row of `ingestion_runs`, without the columns that only reports read.
pub record Run : Type 0 where
  pub run_id : ℕ
  pub source : ℕ
  pub dataset : ℕ
  pub status : RunStatus
  pub finished_at : Option ℕ
  pub request_count : ℕ
  pub success_count : ℕ
  pub empty_count : ℕ
  pub rows_committed : ℕ
  pub error_message : Option ℕ
  pub owner_id : Option ℕ

-- A row of `update_leases`, whose key is the dataset.
pub record Lease : Type 0 where
  pub source : ℕ
  pub dataset : ℕ
  pub run_id : ℕ
  pub owner_id : ℕ
  pub heartbeat_at : ℕ
  pub lease_expires_at : ℕ

-- A row of `api_calls` that an audit writes; its other columns are its request. The attempts are those
-- in its metrics.
pub record Call : Type 0 where
  pub run_id : ℕ
  pub scope_id : Option ℕ
  pub request : ℕ
  pub request_attempts : ℕ

-- The column of `datasets` that the ledger writes.
pub record DatasetFlag : Type 0 where
  pub source : ℕ
  pub name : ℕ
  pub update_incomplete : Bool

-- `next_id` is the AUTOINCREMENT counter of `update_scopes`.
pub record Ledger : Type 0 where
  pub scopes : List Scope
  pub next_id : ℕ
  pub checks : List Check
  pub runs : List Run
  pub leases : List Lease
  pub calls : List Call
  pub datasets : List DatasetFlag

-- ValueError, RuntimeError and sqlite3.IntegrityError.
pub data Error : Type 0 where
  value_error runtime_error integrity_error : Error

-- The outcome of a transaction; `err` rolls back, so that the tables are those from before the call.
pub data Result {ℓ} (A : Type ℓ) : Type ℓ where
  ok : A → Result A
  err : Error → Result A

infixl 5 ◌>>=◌
abbrev pub ◌>>=◌ {ℓ κ} : {A : Type ℓ} {B : Type κ} → Result A → (A → Result B) → Result B
ok a >>= f = f a
err e >>= f = err e

-- A `for` loop whose body may raise.
unfoldable pub for_each {ℓ κ} :
    {A : Type ℓ} {S : Type κ} → (S → A → Result S) → List A → S → Result S
for_each body [] s = ok s
for_each body (x ∷ xs) s = elim (body s x) [ err e ↦ err e | ok s' ↦ for_each body xs s' ]

-- `P` holds of the tables after the call, if it returns.
abbrev pub Holds {ℓ κ} : {A : Type ℓ} → (A → Type κ) → Result A → Type κ
Holds P (ok a) = P a
Holds P (err e) = Unit

-- `column=?`: NULL equals nothing.
abbrev pub equals : Option ℕ → ℕ → Bool
equals none n = false
equals (some m) n = m == n

-- `a is b`
abbrev pub same_value : Option ℕ → Option ℕ → Bool
same_value none none = true
same_value (some m) (some n) = m == n
same_value none (some n) = false
same_value (some m) none = false

abbrev pub coalesce : Option ℕ → Option ℕ → Option ℕ
coalesce none b = b
coalesce (some a) b = some a

-- `source=? and dataset=?`
abbrev pub of_dataset : ℕ → ℕ → Scope → Bool
of_dataset src name s = s.source == src && s.dataset == name

-- A loop keeps what its body keeps.
pub for_each-Holds {ℓ κ ι} :
    {A : Type ℓ} {S : Type κ} (P : S → Type ι) (body : S → A → Result S)
    → ((s : S) (x : A) → P s → Holds P (body s x))
    → (xs : List A) (s : S) → P s
    → Holds P (for_each body xs s)
unfolding for_each
for_each-Holds {S} P body keep [] s p = p
for_each-Holds {S} P body keep (x ∷ xs) s p =
    after_body (λ s' p'. for_each-Holds P body keep xs s' p') (body s x) (keep s x p)
  where
    after_body :
        ((s' : S) → P s' → Holds P (for_each body xs s'))
        → (r : Result S) → Holds P r
        → Holds P (elim r as (λ _. Result S) [ err e ↦ err e | ok s' ↦ for_each body xs s' ])
    after_body rest (err e) h = tt
    after_body rest (ok s') h = rest s' h

pub >>=-Holds {ℓ κ ι μ} :
    {A : Type ℓ} {B : Type κ} (P : A → Type ι) (Q : B → Type μ) (m : Result A) (f : A → Result B)
    → Holds P m
    → ((a : A) → P a → Holds Q (f a))
    → Holds Q (m >>= f)
>>=-Holds P Q (ok a) f h k = k a h
>>=-Holds P Q (err e) f h k = tt

pub of_Holds {ℓ κ} :
    {A : Type ℓ} (P : A → Type κ) {m : Result A} {a : A} → m ≡ ok a → Holds P m → P a
of_Holds P e h = rw e at h

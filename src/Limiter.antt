-- ===== src/Limiter.antt =====
-- The rate limiter of sources/tushare/source.py: `wait_for_request`, and the quota errors that `fetch`
-- notes. A time is a number of clock ticks; the lock makes each iteration of the waiting loop one step.
pub mod Paced
mod Tests
use bagelquant_data.Prelude.{
  ℕ, ◌+◌, Bool, true, false, Option, none, some, List, [], ◌∷◌, ◌==◌, leb, if◌then◌else◌, max,
}

-- An entry of `_rate_limits`.
pub record RateLimit : Type 0 where
  pub dataset : ℕ
  pub interval : ℕ
  pub next_request : ℕ

-- `endpoint_interval` is `60.0 / _endpoint_limits[dataset]`, and 0 without a limit.
pub record Limiter : Type 0 where
  pub rate_limits : List RateLimit
  pub global_next : ℕ
  pub global_interval : ℕ
  pub endpoint_interval : ℕ → ℕ

-- `_rate_limits.get(dataset, …)`
abbrev pub limit_of : Limiter → ℕ → List RateLimit → RateLimit
limit_of l d [] = record { dataset = d; interval = l.endpoint_interval d; next_request = 0 }
limit_of l d (r ∷ rs) = if r.dataset == d then r else limit_of l d rs

-- `_rate_limits[dataset] = …`
abbrev pub set_limit : RateLimit → List RateLimit → List RateLimit
set_limit r [] = r ∷ []
set_limit r (s ∷ ss) = if s.dataset == r.dataset then r ∷ ss else s ∷ set_limit r ss

abbrev pub admitted_at : ℕ → RateLimit → Limiter → Limiter
admitted_at now r l = record l {
  global_next = now + l.global_interval;
  rate_limits =
      if r.interval == 0
      then l.rate_limits
      else set_limit (record r { next_request = now + r.interval }) l.rate_limits;
}

-- One iteration of the loop of `wait_for_request`, at time `now`; `none` when it has to sleep.
unfoldable pub try_request : ℕ → ℕ → Limiter → Option Limiter
try_request d now l =
    let r = limit_of l d l.rate_limits in
    if leb (max r.next_request l.global_next) now then some (admitted_at now r l) else none

-- What `fetch` does when the provider reports its quota; `cooldown` is 61 seconds.
unfoldable pub note_quota : ℕ → ℕ → ℕ → ℕ → Limiter → Limiter
note_quota d interval cooldown now l = record l {
  rate_limits =
      set_limit (record { dataset = d; interval = interval; next_request = now + cooldown })
        l.rate_limits;
}

-- What the fetch threads do to the limiter, in the order of its lock.
pub data Event : Type 0 where
  poll : (dataset now : ℕ) → Event
  quota : (dataset interval cooldown now : ℕ) → Event

-- The times at which requests are admitted.
unfoldable pub admissions : List Event → Limiter → List ℕ
unfolding try_request note_quota
admissions [] l = []
admissions (Event.quota d interval cooldown now ∷ es) l =
    admissions es (note_quota d interval cooldown now l)
admissions (Event.poll d now ∷ es) l = elim (try_request d now l) [
  | none ↦ admissions es l
  | some l' ↦ now ∷ admissions es l'
]

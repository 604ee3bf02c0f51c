-- ===== src/DistributedLock.antt =====
-- The lock manager of src/10_distributed/03_distributed_lock/main.go.
-- `K` and `H` are the strings that name locks and holders. `Lock` reads the clock twice: once for the
-- test of an existing lock, once for the new expiry. A time to live is not negative.
pub mod Exclusion
pub mod Fencing
mod Examples
use grin_with_golang.Prelude.{
  ℕ, ◌+◌, List, [], ◌∷◌, Option, none, some, ltb, if◌then◌else◌, Bool, ap, append-nil, append_assoc,
  ap₂, arith, bit_and, bit_or, dec_le, dec_lt, false, fun_ext, inl, inr, map, max, min, not, refl,
  subst, suc, sym, true, zero, ℕ_discrete, ◌-◌, ◌*◌, ◌/◌, ◌%◌, ◌^◌, ◌≤◌, ◌<◌, ◌≡◌, ◌≢◌, ◌↔◌, ◌⊎◌,
  ◌∙◌, ◌&&◌, ◌||◌, ◌++◌, ◌==◌, ◌>>=◌, leb, length, get_elem?, get_or, set, store, replicate,
  Bool-cases, Option-cases, length-append, length-set, length-replicate, get_or-set,
  get_elem?-get_or,
}
use grin_with_golang.Prelude.Maps.{GoMap, make, insert, delete}
use grin_with_golang.Words.{add64}
use mathlib.Core.Logic.{ite}

pub record LockEntry (K H : Type 0) : Type 0 where
  pub key : K
  pub holder : H
  pub token : ℕ
  pub expires_at : ℕ

pub record DistributedLock (K H : Type 0) : Type 0 where
  pub locks : GoMap K (LockEntry K H)
  pub next_tok : ℕ

-- what `Lock` returns: the fencing token, or the holder that the error names
pub data LockResult (H : Type 0) : Type 0 where
  granted : ℕ → LockResult H
  held_by : H → LockResult H

-- what `Unlock` returns
pub data UnlockResult (H : Type 0) : Type 0 where
  released : UnlockResult H
  not_found : UnlockResult H
  other_holder : H → UnlockResult H

module _ {K H : Type 0} where
  abbrev pub new : DistributedLock K H
  new = record { locks = make; next_tok = 0 }

  -- `time.Now().Before(existing.ExpiresAt)`
  abbrev pub is_live : ℕ → LockEntry K H → Bool
  is_live now e = ltb now e.expires_at

module _ {K H : Type 0} (dec : Discrete K) (dec_h : Discrete H) where
  -- the part of `Lock` past the test
  unfoldable pub grant : DistributedLock K H → K → H → ℕ → ℕ → DistributedLock K H × LockResult H
  grant dl key holder ttl later =
      let tok = add64 dl.next_tok 1 in
      let entry : LockEntry K H = record {
        key = key;
        holder = holder;
        token = tok;
        expires_at = later + ttl;
      } in
      (record { locks = insert dec key entry dl.locks; next_tok = tok }, granted tok)

  unfoldable pub lock : DistributedLock K H → K → H → ℕ → ℕ → ℕ → DistributedLock K H × LockResult H
  lock dl key holder ttl now later = elim (dl.locks key) [
    | none ↦ grant dl key holder ttl later
    | some existing ↦
        if is_live now existing
        then (dl, held_by existing.holder)
        else grant dl key holder ttl later
  ]

  unfoldable pub unlock : DistributedLock K H → K → H → DistributedLock K H × UnlockResult H
  unlock dl key holder = elim (dl.locks key) [
    | none ↦ (dl, not_found)
    | some entry ↦
        ite (dec_h entry.holder holder) (record dl { locks = delete dec key dl.locks }, released)
          (dl, other_holder entry.holder)
  ]

module _ {K H : Type 0} where
  -- the body of `if now.After(entry.ExpiresAt)`, for the entry of one key
  abbrev pub sweep : ℕ → Option (LockEntry K H) → Option (LockEntry K H)
  sweep now none = none
  sweep now (some e) = if ltb e.expires_at now then none else some e

  -- one tick of `expiryLoop`: the loop visits every key
  unfoldable pub expire : DistributedLock K H → ℕ → DistributedLock K H
  expire dl now = record dl { locks = λ key. sweep now (dl.locks key) }

-- A call of a client, or a tick of the background loop, with the times at which it reads the clock.
pub data Op (K H : Type 0) : Type 0 where
  acquire : K → H → ℕ → ℕ → ℕ → Op K H
  release : K → H → Op K H
  tick : ℕ → Op K H

module _ {K H : Type 0} (dec : Discrete K) (dec_h : Discrete H) where
  unfoldable pub apply : DistributedLock K H → Op K H → DistributedLock K H
  unfolding lock unlock expire grant
  apply dl (acquire key holder ttl now later) = (lock dec dec_h dl key holder ttl now later).0
  apply dl (release key holder) = (unlock dec dec_h dl key holder).0
  apply dl (tick now) = expire dl now

  unfoldable pub apply_all : DistributedLock K H → List (Op K H) → DistributedLock K H
  apply_all dl [] = dl
  apply_all dl (op ∷ ops) = apply_all (apply dl op) ops

  -- the tokens that a sequence of calls grants, in order
  abbrev token_of : LockResult H → List ℕ → List ℕ
  token_of (granted t) rest = t ∷ rest
  token_of (held_by h) rest = rest

  unfoldable pub tokens : DistributedLock K H → List (Op K H) → List ℕ
  tokens dl [] = []
  tokens dl (acquire key holder ttl now later ∷ ops) =
      let (dl', r) = lock dec dec_h dl key holder ttl now later in token_of r (tokens dl' ops)
  tokens dl (release key holder ∷ ops) = tokens (unlock dec dec_h dl key holder).0 ops
  tokens dl (tick now ∷ ops) = tokens (expire dl now) ops

-- ===== src/Node/Miner.antt =====
-- The miner's bookkeeping of node/src/service.rs: job numbers, the cache of two templates, the nonces a
-- worker tries, and how far behind the best block a share may be.
pub mod Nonces
pub mod Templates
use lumenyx.Prelude.{
  ℕ, zero, suc, ◌+◌, ◌%◌, ◌^◌, max, Bool, true, false, not, Option, none, some, List, [], ◌∷◌, ◌++◌,
  ltb, ◌==◌, if◌then◌else◌, length, retain,
}

abbrev pub share_stale_depth : ℕ
share_stale_depth = 4

-- `next_job_id`: the number after this one, never zero.
unfoldable pub next_job_id : ℕ → ℕ
next_job_id job_id = max ((job_id + 1) % 2 ^ 64) 1

-- `next_job_id_if_parent_changed`: the job, whether it is new, and the number and the parent kept.
unfoldable pub next_job_id_if_parent_changed : ℕ → ℕ × Option ℕ → (ℕ × Bool) × (ℕ × Option ℕ)
unfolding next_job_id
next_job_id_if_parent_changed parent_hash (job_id, none) =
    ((next_job_id job_id, true), (next_job_id job_id, some parent_hash))
next_job_id_if_parent_changed parent_hash (job_id, some prev) =
    if prev == parent_hash
    then ((job_id, false), (job_id, some prev))
    else ((next_job_id job_id, true), (next_job_id job_id, some parent_hash))

-- The loop over the bytes of a worker's nonce.
unfoldable pub increment_nonce : List ℕ → List ℕ
increment_nonce [] = []
increment_nonce (b ∷ nonce) =
    let rest = increment_nonce nonce in if b == 255 then 0 ∷ rest else (b + 1) ∷ nonce

-- `PowTemplate`; `Rest` is its header, its body and its storage changes, which the cache only keeps.
pub record PowTemplate (Rest : Type 0) : Type 0 where
  pub job_id : ℕ
  pub height : ℕ
  pub parent_hash : ℕ
  pub rest : Rest
  pub pre_hash : ℕ
  pub target : ℕ
  pub share_target : ℕ
  pub seed_height : ℕ
  pub seed : ℕ

-- A map with numbers as keys.
module _ {V : Type 0} where
  abbrev pub find : ℕ → List (ℕ × V) → Option V
  find k [] = none
  find k ((k', v) ∷ m) = if k == k' then some v else find k m

  abbrev pub erase : ℕ → List (ℕ × V) → List (ℕ × V)
  erase k [] = []
  erase k ((k', v) ∷ m) = if k == k' then erase k m else (k', v) ∷ erase k m

-- `TemplateLru2`
pub record TemplateLru2 (Rest : Type 0) : Type 0 where
  pub order : List ℕ
  pub map : List (ℕ × PowTemplate Rest)

module _ {Rest : Type 0} where
  -- `TemplateLru2::new`, and what `clear` leaves.
  unfoldable pub new : TemplateLru2 Rest
  new = record { order = []; map = [] }

  -- `while self.order.len() > 2`
  unfoldable pub evict : List ℕ → List (ℕ × PowTemplate Rest) → TemplateLru2 Rest
  evict [] map = record { order = []; map = map }
  evict (old ∷ order) map =
      let rest = evict order (erase old map) in
      if ltb 2 (length (old ∷ order)) then rest else record { order = old ∷ order; map = map }

  -- `TemplateLru2::insert`; a number that is not in the order is not removed from it, so that the two
  -- branches are one.
  unfoldable pub insert : PowTemplate Rest → TemplateLru2 Rest → TemplateLru2 Rest
  unfolding evict
  insert tpl t =
      let id = tpl.job_id in
      evict (retain (λ x. not (x == id)) t.order ++ id ∷ []) ((id, tpl) ∷ erase id t.map)

  -- `TemplateLru2::remove`: what was found, and the cache after.
  unfoldable pub remove : ℕ → TemplateLru2 Rest → Option (PowTemplate Rest) × TemplateLru2 Rest
  remove job_id t = (
    find job_id t.map,
    record { order = retain (λ x. not (x == job_id)) t.order; map = erase job_id t.map },
  )

  -- `TemplateLru2::len`
  unfoldable pub len : TemplateLru2 Rest → ℕ
  len t = length t.map

-- `is_recent_parent`, over the headers of the client: the parent of a block, if its header is there.
unfoldable pub walk_parents : (ℕ → Option ℕ) → ℕ → ℕ → ℕ → Bool
walk_parents parent share_parent cur zero = false
walk_parents parent share_parent cur (suc depth) = elim (parent cur) [
  | none ↦ false
  | some p ↦
      let rest = walk_parents parent share_parent p depth in
      if p == share_parent then true else if p == 0 then false else rest
]

unfoldable pub is_recent_parent : (ℕ → Option ℕ) → ℕ → ℕ → ℕ → Bool
unfolding walk_parents
is_recent_parent parent share_parent best_hash max_depth =
    if share_parent == best_hash then true else walk_parents parent share_parent best_hash max_depth

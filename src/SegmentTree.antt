-- ===== src/SegmentTree.antt =====
-- The segment tree of src/09_dsa/07_segment_tree/main.go.
-- A Go int that is summed is its 64-bit pattern, so `+` wraps as in the source; positions are
-- natural numbers. The recursions take fuel, twice the number of elements at the top, which is more
-- than the depth of the tree; `none` is a panic or the end of the fuel.
pub mod Sum
pub mod Heap
pub mod Shape
pub mod Build
pub mod Update
pub mod Query
pub mod Session
pub mod Overrun
mod Examples
use grin_with_golang.Prelude.{
  List, Bool, Option, [], ap, append-nil, append_assoc, ap₂, arith, bit_and, bit_or, dec_le, dec_lt,
  false, fun_ext, inl, inr, map, max, min, none, not, refl, some, subst, suc, sym, true, zero, ℕ,
  ℕ_discrete, ◌+◌, ◌-◌, ◌*◌, ◌/◌, ◌%◌, ◌^◌, ◌≤◌, ◌<◌, ◌≡◌, ◌≢◌, ◌↔◌, ◌⊎◌, ◌∙◌, ◌&&◌, ◌||◌, ◌∷◌,
  ◌++◌, ◌==◌, ◌>>=◌, if◌then◌else◌, ltb, leb, length, get_elem?, get_or, set, store, replicate,
  Bool-cases, Option-cases, length-append, length-set, length-replicate, get_or-set,
  get_elem?-get_or,
}
use grin_with_golang.Words.{add64}

pub record SegmentTree : Type 0 where
  pub tree : List ℕ
  pub n : ℕ

-- `st.tree[node] = st.tree[2*node] + st.tree[2*node+1]`
unfoldable pub pull : List ℕ → ℕ → Option (List ℕ)
pull t node = do
  left ← get_elem? t (2 * node)
  right ← get_elem? t (2 * node + 1)
  store t node (add64 left right)

unfoldable pub build : ℕ → List ℕ → List ℕ → ℕ → ℕ → ℕ → Option (List ℕ)
build zero arr t node start end = none
build (suc fuel) arr t node start end =
    let mid = (start + end) / 2 in
    let both : Option (List ℕ) = do
      t1 ← build fuel arr t (2 * node) start mid
      t2 ← build fuel arr t1 (2 * node + 1) (mid + 1) end
      pull t2 node
    in if start == end then get_elem? arr start >>= store t node else both

unfoldable pub new : List ℕ → Option SegmentTree
new arr =
    let n = length arr in
    let t = replicate (4 * n) 0 in
    if ltb 0 n
    then (do t' ← build (2 * n) arr t 1 0 (n - 1); some (record { tree = t'; n = n }))
    else some (record { tree = t; n = n })

unfoldable pub update : ℕ → List ℕ → ℕ → ℕ → ℕ → ℕ → ℕ → Option (List ℕ)
update zero t node start end idx val = none
update (suc fuel) t node start end idx val =
    let mid = (start + end) / 2 in
    let left = update fuel t (2 * node) start mid idx val in
    let right = update fuel t (2 * node + 1) (mid + 1) end idx val in
    let below = (if leb idx mid then left else right) >>= λ t'. pull t' node in
    if start == end then store t node val else below

-- On an empty tree the recursion runs off the slice, or never ends: it does not return.
unfoldable pub update_at : SegmentTree → ℕ → ℕ → Option SegmentTree
update_at st idx val =
    if st.n == 0
    then none
    else do t ← update (2 * st.n) st.tree 1 0 (st.n - 1) idx val; some (record st { tree = t })

unfoldable pub query : ℕ → List ℕ → ℕ → ℕ → ℕ → ℕ → ℕ → Option ℕ
query zero t node start end l r = none
query (suc fuel) t node start end l r =
    let mid = (start + end) / 2 in
    let both : Option ℕ = do
      left ← query fuel t (2 * node) start mid l r
      right ← query fuel t (2 * node + 1) (mid + 1) end l r
      some (add64 left right)
    in if ltb r start || ltb end l
      then some 0
      else if leb l start && leb end r
      then get_elem? t node
      else both

-- On an empty tree `end` is -1, which is before every `l`.
unfoldable pub query_range : SegmentTree → ℕ → ℕ → Option ℕ
query_range st l r = if st.n == 0 then some 0 else query (2 * st.n) st.tree 1 0 (st.n - 1) l r

-- ===== src/RangeLock/Nodes.antt =====
-- The nodes of a range lock as a bag of held ranges, and that no two of them overlap.
use slotfs_eurosys.Base.{
  ℕ, ◌+◌, ◌≡◌, refl, Bool, true, false, ◌&&◌, ◌||◌, arith, ◌==◌, if◌then◌else◌, none, some, List,
  [], ◌∷◌, length, inl, inr, Option-cases,
}
use slotfs_eurosys.RangeLock.{RlockNode, is_overlap, any_overlap, claim, release}

-- How many nodes are valid.
unfoldable pub count_valid : List RlockNode → ℕ
count_valid [] = 0
count_valid (n ∷ ns) = (if n.valid then 1 else 0) + count_valid ns

-- How many valid nodes hold exactly the range from `s` to `e`.
unfoldable pub held : ℕ → ℕ → List RlockNode → ℕ
held s e [] = 0
held s e (n ∷ ns) = (if n.valid && (n.start == s) && (n.end == e) then 1 else 0) + held s e ns

-- No two valid nodes overlap.
unfoldable pub apart : List RlockNode → Bool
apart [] = true
apart (n ∷ ns) =
    (if n.valid then (if any_overlap n.start n.end ns then false else true) else true) && apart ns

pub count_valid-zero-any_overlap :
    (s e : ℕ) (ns : List RlockNode) → count_valid ns ≡ 0 → any_overlap s e ns ≡ false
unfolding count_valid any_overlap
count_valid-zero-any_overlap s e [] h = refl
count_valid-zero-any_overlap s e (n ∷ ns) h = ground (arith, count_valid-zero-any_overlap s e ns)

pub count_valid-claim :
    (s e : ℕ) (ns : List RlockNode) {ms : List RlockNode}
    → claim s e ns ≡ some ms
    → count_valid ms ≡ count_valid ns + 1
unfolding count_valid claim
count_valid-claim s e [] h = cc
count_valid-claim s e (n ∷ ns) h = elim (Option-cases (claim s e ns)) [
  | inl full ↦ ground (arith)
  | inr (ns', got) ↦ ground (arith, count_valid-claim s e ns got)
]

pub claim-none : (s e : ℕ) (ns : List RlockNode) → claim s e ns ≡ none → count_valid ns ≡ length ns
unfolding count_valid claim
claim-none s e [] h = refl
claim-none s e (n ∷ ns) h = elim (Option-cases (claim s e ns)) [
  | inl full ↦ ground (arith, claim-none s e ns full)
  | inr (ns', got) ↦ ground arith
]

-- a new node overlaps `t` where the old ones did, or where the new range does
pub any_overlap-claim :
    (s e t u : ℕ) (ns : List RlockNode) {ms : List RlockNode}
    → claim s e ns ≡ some ms
    → any_overlap t u ms ≡ (is_overlap t u s e || any_overlap t u ns)
unfolding any_overlap claim
any_overlap-claim s e t u [] h = cc
any_overlap-claim s e t u (n ∷ ns) h = elim (Option-cases (claim s e ns)) [
  | inl full ↦ ground (arith)
  | inr (ns', got) ↦ ground (arith, any_overlap-claim s e t u ns got)
]

overlap_symm : (a b c d : ℕ) → is_overlap a b c d ≡ is_overlap c d a b
unfolding is_overlap
overlap_symm a b c d = ground arith

pub apart-claim :
    (s e : ℕ) (ns : List RlockNode) {ms : List RlockNode}
    → claim s e ns ≡ some ms
    → any_overlap s e ns ≡ false
    → apart ns ≡ true
    → apart ms ≡ true
unfolding any_overlap claim apart
apart-claim s e [] h free ok = cc
apart-claim s e (n ∷ ns) h free ok = elim (Option-cases (claim s e ns)) [
  | inl full ↦ ground (arith, overlap_symm s e n.start n.end)
  | inr (ns', got) ↦ ground (
    arith,
    apart-claim s e ns got,
    any_overlap-claim s e n.start n.end ns got,
    overlap_symm s e n.start n.end,
  )
]

pub held-claim :
    (s e t u : ℕ) (ns : List RlockNode) {ms : List RlockNode}
    → claim s e ns ≡ some ms
    → held t u ms ≡ held t u ns + (if (s == t) && (e == u) then 1 else 0)
unfolding held claim
held-claim s e t u [] h = cc
held-claim s e t u (n ∷ ns) h = elim (Option-cases (claim s e ns)) [
  | inl full ↦ ground (arith)
  | inr (ns', got) ↦ ground (arith, held-claim s e t u ns got)
]

pub count_valid-release :
    (s e : ℕ) (ns : List RlockNode) {ms : List RlockNode}
    → release s e ns ≡ some ms
    → count_valid ms + 1 ≡ count_valid ns
unfolding count_valid release
count_valid-release s e [] h = cc
count_valid-release s e (n ∷ ns) h = elim (Option-cases (release s e ns)) [
  | inl full ↦ ground (arith)
  | inr (ns', got) ↦ ground (arith, count_valid-release s e ns got)
]

pub any_overlap-release :
    (s e t u : ℕ) (ns : List RlockNode) {ms : List RlockNode}
    → release s e ns ≡ some ms
    → any_overlap t u ns ≡ false
    → any_overlap t u ms ≡ false
unfolding any_overlap release
any_overlap-release s e t u [] h free = cc
any_overlap-release s e t u (n ∷ ns) h free = elim (Option-cases (release s e ns)) [
  | inl full ↦ ground (arith)
  | inr (ns', got) ↦ ground (arith, any_overlap-release s e t u ns got)
]

pub apart-release :
    (s e : ℕ) (ns : List RlockNode) {ms : List RlockNode}
    → release s e ns ≡ some ms
    → apart ns ≡ true
    → apart ms ≡ true
unfolding apart release
apart-release s e [] h ok = cc
apart-release s e (n ∷ ns) h ok = elim (Option-cases (release s e ns)) [
  | inl full ↦ ground (arith)
  | inr (ns', got) ↦
      ground (arith, apart-release s e ns got, any_overlap-release s e n.start n.end ns got)
]

pub held-release :
    (s e t u : ℕ) (ns : List RlockNode) {ms : List RlockNode}
    → release s e ns ≡ some ms
    → held t u ms + (if (s == t) && (e == u) then 1 else 0) ≡ held t u ns
unfolding held release
held-release s e t u [] h = cc
held-release s e t u (n ∷ ns) h = elim (Option-cases (release s e ns)) [
  | inl full ↦ ground (arith)
  | inr (ns', got) ↦ ground (arith, held-release s e t u ns got)
]

pub release-none : (s e : ℕ) (ns : List RlockNode) → release s e ns ≡ none → held s e ns ≡ 0
unfolding held release
release-none s e [] h = refl
release-none s e (n ∷ ns) h = elim (Option-cases (release s e ns)) [
  | inl out ↦ ground (arith, release-none s e ns out)
  | inr (ns', got) ↦ ground arith
]

pub length-claim :
    (s e : ℕ) (ns : List RlockNode) {ms : List RlockNode}
    → claim s e ns ≡ some ms
    → length ms ≡ length ns
unfolding claim
length-claim s e [] h = cc
length-claim s e (n ∷ ns) h = elim (Option-cases (claim s e ns)) [
  | inl full ↦ ground (arith)
  | inr (ns', got) ↦ ground (arith, length-claim s e ns got)
]

pub length-release :
    (s e : ℕ) (ns : List RlockNode) {ms : List RlockNode}
    → release s e ns ≡ some ms
    → length ms ≡ length ns
unfolding release
length-release s e [] h = cc
length-release s e (n ∷ ns) h = elim (Option-cases (release s e ns)) [
  | inl full ↦ ground (arith)
  | inr (ns', got) ↦ ground (arith, length-release s e ns got)
]

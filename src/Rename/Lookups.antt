-- ===== src/Rename/Lookups.antt =====
-- Looking up an entry after another has been linked into the tree: the way down is the same.
use slotfs_eurosys.Base.{
  none, some, inl, inr, refl, ◌≡◌, Bool-cases, ℕ, if◌then◌else◌, ltb, ◌==◌, arith, eq_of_some,
}
use slotfs_eurosys.Dir.{Tree, Dirent, dirent_lookup, link_node}

pub dirent_lookup-link_node :
    (d : Dirent) (t : Tree)
    → dirent_lookup t d.hash ≡ none
    → (t' : Tree) × (link_node d t ≡ some t')
      × ((h : ℕ) → dirent_lookup t' h ≡ (if d.hash == h then some d else dirent_lookup t h))
unfolding link_node dirent_lookup
dirent_lookup-link_node d Tree.empty missing =
    (Tree.branch Tree.empty d Tree.empty, refl, λ h. ground arith)
dirent_lookup-link_node d (Tree.branch left curr right) missing =
    elim (Bool-cases (ltb d.hash curr.hash)) [
      | inl below ↦
          let (t, linked, found) = dirent_lookup-link_node d left (rw below at missing) in
          (
            Tree.branch t curr right,
            rw (below, linked) refl,
            λ h. rw (found h) (ground (arith, below)),
          )
      | inr not_below ↦ elim (Bool-cases (ltb curr.hash d.hash)) [
        | inl above ↦
            let (t, linked, found) =
              dirent_lookup-link_node d right (rw (not_below, above) at missing) in
            (
              Tree.branch left curr t,
              rw (not_below, above, linked) refl,
              λ h. rw (found h) (ground (arith, above)),
            )
        | inr equal ↦ absurd (cc (rw (not_below, equal) at missing))
      ]
    ]

-- What is found has the key.
pub dirent_lookup-hash : (t : Tree) (h : ℕ) {d : Dirent} → dirent_lookup t h ≡ some d → d.hash ≡ h
unfolding dirent_lookup
dirent_lookup-hash Tree.empty h got = absurd (cc got)
dirent_lookup-hash (Tree.branch left curr right) h got = elim (Bool-cases (ltb h curr.hash)) [
  | inl below ↦ dirent_lookup-hash left h (rw below at got)
  | inr not_below ↦ elim (Bool-cases (ltb curr.hash h)) [
    | inl above ↦ dirent_lookup-hash right h (rw (not_below, above) at got)
    | inr equal ↦ ground (arith, not_below, equal, eq_of_some (rw (not_below, equal) at got))
  ]
]

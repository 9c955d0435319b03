-- ===== src/FlowExporter/Cache.antt =====
-- The map of flow records: the laws of its operations, and that its keys are distinct.
use flowpipeline.Base.{
  ℕ, ◌+◌, true, false, List, [], ◌∷◌, none, some, ◌≡◌, refl, ap₂, arith, if◌then◌else◌, Bool-cases,
  inl, inr,
}
use flowpipeline.Flow.Ip.{bytes_equal}
use flowpipeline.FlowExporter.{Packet, FlowKey, same_key, FlowRecord, Entries, find, remove, put}

pub bytes_equal_refl : (a : List ℕ) → bytes_equal a a ≡ true
unfolding bytes_equal
bytes_equal_refl [] = refl
bytes_equal_refl (x ∷ a) = ground (arith, bytes_equal_refl a)

pub bytes_equal-eq : (a b : List ℕ) → bytes_equal a b ≡ true → a ≡ b
unfolding bytes_equal
bytes_equal-eq [] [] h = refl
bytes_equal-eq [] (y ∷ b) h = ground arith
bytes_equal-eq (x ∷ a) [] h = ground arith
bytes_equal-eq (x ∷ a) (y ∷ b) h =
    ap₂ (λ u v. u ∷ v) (ground arith) (bytes_equal-eq a b (ground arith))

pub same_key_refl : (k : FlowKey) → same_key k k ≡ true
unfolding same_key
same_key_refl k = ground (arith, bytes_equal_refl k.src_addr, bytes_equal_refl k.dst_addr)

pub same_key-eq : (k j : FlowKey) → same_key k j ≡ true → k ≡ j
unfolding same_key
same_key-eq k j h =
    let src : k.src_addr ≡ j.src_addr = bytes_equal-eq k.src_addr j.src_addr (ground arith) in
    let dst : k.dst_addr ≡ j.dst_addr = bytes_equal-eq k.dst_addr j.dst_addr (ground arith) in
    let sp : k.src_port ≡ j.src_port = ground arith in
    let dp : k.dst_port ≡ j.dst_port = ground arith in
    let proto : k.proto ≡ j.proto = ground arith in
    let tos : k.ip_tos ≡ j.ip_tos = ground arith in
    let iface : k.in_iface ≡ j.in_iface = ground arith in
    λ i. record {
      src_addr = src i;
      dst_addr = dst i;
      src_port = sp i;
      dst_port = dp i;
      proto = proto i;
      ip_tos = tos i;
      in_iface = iface i;
    }

-- No two entries have the same key.
abbrev pub Distinct : Entries → Type 0
Distinct [] = Unit
Distinct ((k, r) ∷ m) = (find k m ≡ none) × Distinct m

pub find-put :
    (k j : FlowKey) (r : FlowRecord) (m : Entries)
    → find j (put k r m) ≡ (if same_key k j then some r else find j m)
unfolding find put
find-put k j r [] = refl
find-put k j r ((i, s) ∷ m) = elim (Bool-cases (same_key i k)) [
  | inl e ↦ rw (e, same_key-eq i k e) (ground (arith, find-put k j r m))
  | inr e ↦
      ground (
        arith,
        same_key-eq i j,
        same_key-eq k j,
        same_key_refl k,
        same_key_refl j,
        find-put k j r m,
      )
]

pub find-remove :
    (k j : FlowKey) (m : Entries) → same_key k j ≡ false → find j (remove k m) ≡ find j m
unfolding find remove
find-remove k j [] h = refl
find-remove k j ((i, s) ∷ m) h = ground (arith, same_key-eq i k, find-remove k j m)

pub put-Distinct : (k : FlowKey) (r : FlowRecord) (m : Entries) → Distinct m → Distinct (put k r m)
unfolding find put
put-Distinct k r [] d = (refl, tt)
put-Distinct k r ((i, s) ∷ m) d = elim (Bool-cases (same_key i k)) [
  | inl e ↦ rw e d
  | inr e ↦
      rw e
        (ground (arith, find-put k i r m, same_key-eq k i, same_key_refl k), put-Distinct k r m d.1)
]

pub remove-Distinct : (k : FlowKey) (m : Entries) → Distinct m → Distinct (remove k m)
unfolding find remove
remove-Distinct k [] d = tt
remove-Distinct k ((i, s) ∷ m) d = elim (Bool-cases (same_key i k)) [
  | inl e ↦ rw e d.1
  | inr e ↦
      rw e (
        ground (arith, find-remove k i m, same_key-eq k i, same_key_refl k),
        remove-Distinct k m d.1,
      )
]

-- A number of each packet, added up over a cache.
module _ (weight : Packet → ℕ) where
  abbrev pub total : List Packet → ℕ
  total [] = 0
  total (p ∷ ps) = weight p + total ps

  abbrev pub cached : Entries → ℕ
  cached [] = 0
  cached ((k, r) ∷ m) = total r.packets + cached m

  pub cached-remove :
      (k : FlowKey) (m : Entries) (r : FlowRecord)
      → find k m ≡ some r
      → cached m ≡ total r.packets + cached (remove k m)
  unfolding find remove
  cached-remove k [] r h = ground arith
  cached-remove k ((i, s) ∷ m) r h = elim (Bool-cases (same_key i k)) [
    | inl e ↦ ground (arith, cached-remove k m r)
    | inr e ↦ ground (arith, cached-remove k m r)
  ]

  pub cached-put_new :
      (k : FlowKey) (r : FlowRecord) (m : Entries)
      → find k m ≡ none
      → cached (put k r m) ≡ total r.packets + cached m
  unfolding find put
  cached-put_new k r [] h = ground arith
  cached-put_new k r ((i, s) ∷ m) h = ground (arith, cached-put_new k r m)

  pub cached-put :
      (k : FlowKey) (r s : FlowRecord) (m : Entries)
      → find k m ≡ some s
      → cached (put k r m) + total s.packets ≡ total r.packets + cached m
  unfolding find put
  cached-put k r s [] h = ground arith
  cached-put k r s ((i, t) ∷ m) h = ground (arith, cached-put k r s m)

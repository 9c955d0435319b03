-- ===== src/Toptalkers/Record/Window.antt =====
-- A ring of buckets as the list of its last counts, newest first.
use flowpipeline.Base.{
  ℕ, zero, suc, ◌+◌, ◌≤◌, ◌<◌, ◌≡◌, refl, ap, ap₂, sym, ◌∙◌, ◌⊎◌, Bool, true, false, List, [], ◌∷◌,
  length, get_or, set, take, add64, arith, get_or-set_self, get_or-set_ne,
}
use flowpipeline.Toptalkers.Record.{Record, add_at, append, prev, next, tick}
use flowpipeline.Toptalkers.Record.Valid.{IsValid, prev-lt, next-lt, prev-next}

-- The `n` buckets from `pos` backwards.
abbrev pub back : List ℕ → ℕ → ℕ → ℕ → List ℕ
back buf cap pos zero = []
back buf cap pos (suc n) = get_or buf pos 0 ∷ back buf cap (prev cap pos) n

pub length-back : (buf : List ℕ) (cap pos n : ℕ) → length (back buf cap pos n) ≡ n
length-back buf cap pos zero = refl
length-back buf cap pos (suc n) = ap suc (length-back buf cap (prev cap pos) n)

pub take-back :
    (buf : List ℕ) (cap pos n k : ℕ) → k ≤ n → take k (back buf cap pos n) ≡ back buf cap pos k
take-back buf cap pos n zero h = refl
take-back buf cap pos zero (suc k) h = absurd (omega arith)
take-back buf cap pos (suc n) (suc k) h =
    ap (λ l. get_or buf pos 0 ∷ l) (take-back buf cap (prev cap pos) n k (omega arith))

-- A walk of `n` steps back from `pos` does not meet bucket `i`.
abbrev Misses : ℕ → ℕ → ℕ → ℕ → Type 0
Misses cap pos n i = (n + i ≤ pos) ⊎ ((pos < i) × (n + i ≤ pos + cap))

Misses-prev :
    (cap pos n i : ℕ)
    → i < cap
    → pos < cap
    → Misses cap pos (suc n) i
    → Misses cap (prev cap pos) n i
unfolding prev
Misses-prev cap pos n i hi hp m = ground arith

pub back-set :
    (buf : List ℕ) (cap pos n i v : ℕ)
    → i < cap
    → pos < cap
    → Misses cap pos n i
    → back (set buf i v) cap pos n ≡ back buf cap pos n
back-set buf cap pos zero i v hi hp m = refl
back-set buf cap pos (suc n) i v hi hp m = ap₂ ◌∷◌ (get_or-set_ne buf v 0 (omega arith)) (
    back-set buf cap (prev cap pos) n i v hi (prev-lt cap pos hp) (Misses-prev cap pos n i hi hp m))

-- The window of a ring: all its buckets, the current one first.
abbrev pub window : List ℕ → ℕ → ℕ → List ℕ
window buf cap pos = back buf cap pos cap

-- The specification: a list of `cap` counts, newest first. Traffic is added to the newest, and a
-- tick begins a new count and forgets the oldest.
abbrev pub add_newest : ℕ → List ℕ → List ℕ
add_newest x [] = []
add_newest x (w ∷ ws) = add64 w x ∷ ws

abbrev pub shift : List ℕ → List ℕ
shift [] = []
shift (w ∷ ws) = 0 ∷ take (length ws) (w ∷ ws)

Misses-next : (cap pos n : ℕ) → pos < cap → suc n ≡ cap → Misses cap (prev cap pos) n pos
unfolding prev
Misses-next cap pos n h e = ground arith

window-add :
    (buf : List ℕ) (cap pos x : ℕ)
    → length buf ≡ cap
    → pos < cap
    → window (add_at buf pos x) cap pos ≡ add_newest x (window buf cap pos)
window-add buf zero pos x l h = elim h [ ]
window-add buf (suc n) pos x l h = ap₂ ◌∷◌ (get_or-set_self buf pos _ 0 (omega arith)) (
    back-set buf (suc n) (prev (suc n) pos) n pos _ h (prev-lt (suc n) pos h)
      (Misses-next (suc n) pos n h refl))

window-shift :
    (buf : List ℕ) (cap pos : ℕ)
    → length buf ≡ cap
    → pos < cap
    → window (set buf (next cap pos) 0) cap (next cap pos) ≡ shift (window buf cap pos)
window-shift buf zero pos l h = elim h [ ]
window-shift buf (suc n) pos l h =
    let p = next (suc n) pos in
    let hp : p < suc n = next-lt (suc n) pos h in
    ap₂ ◌∷◌ (get_or-set_self buf p 0 0 (omega arith)) (
      back-set buf (suc n) (prev (suc n) p) n p 0 hp (prev-lt (suc n) p hp)
        (Misses-next (suc n) p n hp refl)
      ∙ ap (λ q. back buf (suc n) q n) (prev-next (suc n) pos h)
      ∙ sym (
          ap (λ k. take k (window buf (suc n) pos)) (length-back buf (suc n) (prev (suc n) pos) n)
          ∙ take-back buf (suc n) pos (suc n) n (omega arith)))

-- The four windows of a record.
pub record Windows : Type 0 where
  pub fwd_bytes : List ℕ
  pub fwd_packets : List ℕ
  pub drop_bytes : List ℕ
  pub drop_packets : List ℕ

abbrev pub windows : Record → Windows
windows r = record {
  fwd_bytes = window r.fwd_bytes r.capacity r.pointer;
  fwd_packets = window r.fwd_packets r.capacity r.pointer;
  drop_bytes = window r.drop_bytes r.capacity r.pointer;
  drop_packets = window r.drop_packets r.capacity r.pointer;
}

abbrev pub append_windows : Windows → ℕ → ℕ → Bool → Windows
append_windows w b p true = record w {
  fwd_bytes = add_newest b w.fwd_bytes;
  fwd_packets = add_newest p w.fwd_packets;
}
append_windows w b p false = record w {
  drop_bytes = add_newest b w.drop_bytes;
  drop_packets = add_newest p w.drop_packets;
}

abbrev pub shift_windows : Windows → Windows
shift_windows w = record {
  fwd_bytes = shift w.fwd_bytes;
  fwd_packets = shift w.fwd_packets;
  drop_bytes = shift w.drop_bytes;
  drop_packets = shift w.drop_packets;
}

-- `Append` adds the bytes and packets to the newest count of the two windows of the flow's
-- status, and changes nothing else of the four windows of a valid record.
pub windows-append :
    (r : Record) (b p : ℕ) (fwd : Bool)
    → IsValid r
    → windows (append r b p fwd) ≡ append_windows (windows r) b p fwd
unfolding append
windows-append r b p true v = ground (
  arith,
  window-add r.fwd_bytes r.capacity r.pointer b,
  window-add r.fwd_packets r.capacity r.pointer p,
)
windows-append r b p false v = ground (
  arith,
  window-add r.drop_bytes r.capacity r.pointer b,
  window-add r.drop_packets r.capacity r.pointer p,
)

-- `tick` begins a new count of 0 in each of the four windows of a valid record and forgets the
-- oldest, whatever the thresholds are.
pub windows-tick :
    (average : ℕ → ℕ → ℕ) (r : Record) (n d bps pps : ℕ)
    → IsValid r
    → windows (tick average r n d bps pps) ≡ shift_windows (windows r)
unfolding tick
windows-tick average r n d bps pps v = ground (
  arith,
  window-shift r.fwd_bytes r.capacity r.pointer,
  window-shift r.fwd_packets r.capacity r.pointer,
  window-shift r.drop_bytes r.capacity r.pointer,
  window-shift r.drop_packets r.capacity r.pointer,
)

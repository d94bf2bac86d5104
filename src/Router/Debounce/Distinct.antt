-- ===== src/Router/Debounce/Distinct.antt =====
-- No key stands twice in the Map of buckets.
use wood_fired_tasks.Prelude.{
  ◌≡◌, refl, sym, subst, inl, inr, Bool, true, false, not, ◌&&◌, none, some, Option, [], ◌∷◌, arith,
  Bool-cases, if◌then◌else◌,
}
use wood_fired_tasks.Prelude.Text.{Text, text_eq}
use wood_fired_tasks.Router.Debounce.{Bucket, Buckets, get, set, remove_key}
use wood_fired_tasks.Router.Debounce.Keys.{text_eq_iff, get-set, get-remove_key}

unfoldable pub has_key : Buckets → Text → Bool
has_key [] k = false
has_key ((i, b) ∷ m) k = if text_eq i k then true else has_key m k

unfoldable pub uniq_keys : Buckets → Bool
uniq_keys [] = true
uniq_keys ((i, b) ∷ m) = not (has_key m i) && uniq_keys m

abbrev is_some : Option Bucket → Bool
is_some none = false
is_some (some b) = true

has_key-get : (m : Buckets) (k : Text) → has_key m k ≡ is_some (get m k)
unfolding has_key get
has_key-get [] k = refl
has_key-get ((i, b) ∷ m) k = ground (arith, has_key-get m k)

has_key-set :
    (m : Buckets) (k : Text) (b : Bucket) (j : Text)
    → has_key (set m k b) j ≡ (if text_eq k j then true else has_key m j)
has_key-set m k b j = ground (arith, has_key-get (set m k b) j, has_key-get m j, get-set m k j b)

has_key-remove_key :
    (m : Buckets) (k j : Text)
    → has_key (remove_key m k) j ≡ (if text_eq k j then false else has_key m j)
has_key-remove_key m k j =
    ground (arith, has_key-get (remove_key m k) j, has_key-get m j, get-remove_key m k j)

pub uniq_keys-set :
    (m : Buckets) (k : Text) (b : Bucket) → uniq_keys m ≡ true → uniq_keys (set m k b) ≡ true
unfolding uniq_keys set has_key
uniq_keys-set [] k b u = refl
uniq_keys-set ((i, c) ∷ m) k b u = elim (Bool-cases (text_eq i k)) [
  | inl same ↦
      let out = subst (λ x. has_key m x ≡ false) ((text_eq_iff i k).0 same) (ground (arith, u)) in
      ground (arith, same, out, u)
  | inr other ↦ elim (Bool-cases (text_eq k i)) [
    | inl back ↦
        absurd (ground (arith, other, (text_eq_iff i k).1 (sym ((text_eq_iff k i).0 back))))
    | inr apart ↦
        ground
          (arith, other, u, has_key-set m k b i, apart, uniq_keys-set m k b (ground (arith, u)))
  ]
]

pub uniq_keys-remove_key :
    (m : Buckets) (k : Text) → uniq_keys m ≡ true → uniq_keys (remove_key m k) ≡ true
unfolding uniq_keys remove_key has_key
uniq_keys-remove_key [] k u = refl
uniq_keys-remove_key ((i, c) ∷ m) k u =
    ground (arith, u, has_key-remove_key m k i, uniq_keys-remove_key m k (ground (arith, u)))

-- The first key leaves the rest.
pub remove_key-absent : (m : Buckets) (k : Text) → has_key m k ≡ false → remove_key m k ≡ m
unfolding has_key remove_key
remove_key-absent [] k h = refl
remove_key-absent ((i, c) ∷ m) k h =
    let ih = remove_key-absent m k (ground (arith, h)) in ground (arith, h, ih)

-- ===== src/Exports/HashSet.antt =====
-- The set of hashes that an export collects: what is in it, and that nothing is in it twice.
use gas_guard.Prelude.{
  String, str_eq, eq_iff, ◌≡◌, refl, true, false, ◌||◌, Option, none, some, List, [], ◌∷◌, ◌++◌,
  arith, inl, inr, Bool-cases,
}
use gas_guard.Exports.Chain.{includes_hash, add_hash, add_hashes, add_chunk}

includes_hash-append :
    (h : String) (xs ys : List String)
    → includes_hash h (xs ++ ys) ≡ (includes_hash h xs || includes_hash h ys)
includes_hash-append h [] ys = refl
includes_hash-append h (x ∷ xs) ys = ground (arith, includes_hash-append h xs ys)

includes-add_hash :
    (h x : String) (hs : List String)
    → includes_hash h (add_hash x hs) ≡ (str_eq x h || includes_hash h hs)
includes-add_hash h x hs = ground (arith, includes_hash-append h hs (x ∷ []), eq_iff x h)

pub includes-add_hashes :
    (h : String) (xs hs : List String)
    → includes_hash h (add_hashes xs hs) ≡ (includes_hash h xs || includes_hash h hs)
includes-add_hashes h [] hs = refl
includes-add_hashes h (x ∷ xs) hs =
    ground (arith, includes-add_hashes h xs (add_hash x hs), includes-add_hash h x hs)

-- Each hash once.
abbrev pub Unique : List String → Type 0
Unique [] = Unit
Unique (x ∷ xs) = (includes_hash x xs ≡ false) × Unique xs

Unique-append_one :
    (h : String) (hs : List String) → includes_hash h hs ≡ false → Unique hs → Unique (hs ++ h ∷ [])
Unique-append_one h [] n u = (refl, tt)
Unique-append_one h (x ∷ xs) n (m, u) = (
  ground (arith, includes_hash-append x xs (h ∷ []), eq_iff h x, eq_iff x h),
  Unique-append_one h xs (ground arith) u,
)

Unique-add_hash : (h : String) (hs : List String) → Unique hs → Unique (add_hash h hs)
Unique-add_hash h hs u = elim (Bool-cases (includes_hash h hs)) [
  | inl old ↦ rw old u
  | inr new ↦ rw new (Unique-append_one h hs new u)
]

Unique-add_hashes : (xs hs : List String) → Unique hs → Unique (add_hashes xs hs)
Unique-add_hashes [] hs u = u
Unique-add_hashes (x ∷ xs) hs u = Unique-add_hashes xs (add_hash x hs) (Unique-add_hash x hs u)

pub Unique-add_chunk :
    (o : Option (List String)) (hs : List String) → Unique hs → Unique (add_chunk o hs)
Unique-add_chunk none hs u = u
Unique-add_chunk (some xs) hs u = Unique-add_hashes xs hs u

pub keeps-add_chunk :
    (h : String) (o : Option (List String)) (hs : List String)
    → includes_hash h hs ≡ true
    → includes_hash h (add_chunk o hs) ≡ true
keeps-add_chunk h none hs e = e
keeps-add_chunk h (some xs) hs e = ground (arith, includes-add_hashes h xs hs)

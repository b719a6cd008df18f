-- ===== src/Image/Kernel.antt =====
-- crates/ota-update/src/image/runtime.rs: `KernelParams`, read from the kernel's command line.
use ghaf_givc.Prelude.{
  ℕ, zero, suc, ◌-◌, ◌≤◌, ◌≡◌, refl, Bool, true, ◌&&◌, Option, none, some, List, [], ◌∷◌, arith,
  if◌then◌else◌, &&-eq-true, ◌==◌, list_beq, list_eq, option_eq, nat_eq, length, Result, ok, ◌>>◌,
  ensure, invalid_verity_hash,
}
use ghaf_givc.Text.{
  Text, codes, split_whitespace, split_once, byte_len, is_ascii_hexdigit, split_at_checked,
  len_utf8,
}
use ghaf_givc.Image.Version.{Version}

pub record KernelParams : Type 0 where
  pub store_hash : Option Text
  pub revision : Option Text

abbrev value_for : Text → Option (Text × Text) → Option Text → Option Text
value_for key none rest = rest
value_for key (some (k, v)) rest = if k == key then some v else rest

-- The value of the first word `key=value`.
unfoldable pub find_value : Text → List Text → Option Text
unfolding list_beq split_once
find_value key [] = none
find_value key (word ∷ words) = value_for key (split_once b'=' word) (find_value key words)

unfoldable pub find_arg : Text → Text → Option Text
unfolding find_value split_whitespace
find_arg cmdline key = find_value key (split_whitespace cmdline)

abbrev pub cmdline_arg_name : Text
cmdline_arg_name = codes "ghaf.storehash"

abbrev pub ghaf_revision_name : Text
ghaf_revision_name = codes "ghaf.revision"

unfoldable pub all_hexdigits : Text → Bool
all_hexdigits [] = true
all_hexdigits (c ∷ s) = is_ascii_hexdigit c && all_hexdigits s

unfoldable pub is_valid_hash : Option Text → Bool
unfolding all_hexdigits byte_len
is_valid_hash none = true
is_valid_hash (some hash) = all_hexdigits hash && byte_len hash == 64

unfoldable pub from_cmdline : Text → Result KernelParams
from_cmdline cmdline = do
  let store_hash = find_arg cmdline cmdline_arg_name
  ensure (is_valid_hash store_hash) invalid_verity_hash
  ok (record { store_hash = store_hash; revision = find_arg cmdline ghaf_revision_name })

abbrev first_part : Option (Text × Text) → Text
first_part none = []
first_part (some (l, r)) = l

-- `&h[..16]`, which the source relies on the constructor for: `from_cmdline` checks the length. A
-- slice that Rust would refuse by a panic is empty here.
unfoldable pub fragment : Text → Text
fragment hash = first_part (split_at_checked 16 hash)

abbrev pub verity_hash_fragment : KernelParams → Option Text
verity_hash_fragment k = elim k.store_hash [ none ↦ none | some h ↦ some (fragment h) ]

unfoldable pub to_version : KernelParams → Option Version
to_version k = elim k.revision [
  | none ↦ none
  | some r ↦ some (record { revision = r; hash = verity_hash_fragment k })
]

-- The store hash can be cut behind its sixteenth character.
abbrev pub HasFragment : Option Text → Type 0
HasFragment none = Unit
HasFragment (some hash) =
    (rest : Text) × (split_at_checked 16 hash ≡ some (fragment hash, rest))
    × (length (fragment hash) ≡ 16)

hexdigit-len_utf8 : (c : ℕ) → is_ascii_hexdigit c ≡ true → len_utf8 c ≡ 1
unfolding is_ascii_hexdigit len_utf8
hexdigit-len_utf8 c h = ground arith

split_ascii :
    (n : ℕ) (s : Text)
    → all_hexdigits s ≡ true
    → n ≤ byte_len s
    → (l r : Text) × (split_at_checked n s ≡ some (l, r)) × (length l ≡ n)
unfolding all_hexdigits byte_len split_at_checked
split_ascii zero s h k = ([], s, refl, refl)
split_ascii (suc n) [] h k = elim k [ ]
split_ascii (suc n) (c ∷ s) h k =
    let (hc, hs) = &&-eq-true (is_ascii_hexdigit c) (all_hexdigits s) h in
    let one = hexdigit-len_utf8 c hc in
    let (l, r, p, q) = split_ascii n s hs (omega arith) in
    let less : suc n - len_utf8 c ≡ n = omega arith in
    (c ∷ l, r, rw (less, p, one) (ground arith), omega arith)

is_valid_hash-HasFragment : (hash : Option Text) → is_valid_hash hash ≡ true → HasFragment hash
unfolding is_valid_hash fragment
is_valid_hash-HasFragment none h = tt
is_valid_hash-HasFragment (some hash) h =
    let (digits, size) = &&-eq-true (all_hexdigits hash) (byte_len hash == 64) h in
    let (l, r, p, q) = split_ascii 16 hash digits (ground arith) in (r, rw p, rw p q)

from_cmdline-is_valid_hash :
    (cmdline : Text) (k : KernelParams)
    → from_cmdline cmdline ≡ ok k
    → is_valid_hash k.store_hash ≡ true
unfolding from_cmdline
from_cmdline-is_valid_hash cmdline k h = ground arith

-- Whatever command line is accepted, the version it stands for is computed without a panic: the
-- store hash, if there is one, has a sixteenth character boundary.
from_cmdline-HasFragment :
    (cmdline : Text) (k : KernelParams) → from_cmdline cmdline ≡ ok k → HasFragment k.store_hash
from_cmdline-HasFragment cmdline k h =
    is_valid_hash-HasFragment k.store_hash (from_cmdline-is_valid_hash cmdline k h)

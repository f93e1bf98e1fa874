-- ===== src/Exports/Network.antt =====
-- The chains that an export knows, and its range of blocks: resolveChainId, resolveBlockRange and
-- the tables of apps/api/src/exports/exports.service.ts.
use mathlib.Core.Option
use gas_guard.Prelude.{
  ℕ, zero, suc, ◌+◌, ◌-◌, ◌*◌, ◌/◌, String, Text, codes, same_text, to_lower_case, Bool, true,
  false, ◌&&◌, ◌||◌, not, Option, none, some, List, [], ◌∷◌, leb, ◌==◌, or_else, if◌then◌else◌,
}
use gas_guard.Exports.Csv.{present}

abbrev pub chain_names : List (ℕ × String)
chain_names =
    (1, "Ethereum")
    ∷ (5, "Goerli")
    ∷ (11155111, "Sepolia")
    ∷ (137, "Polygon")
    ∷ (80001, "Mumbai")
    ∷ (42161, "Arbitrum One")
    ∷ (421613, "Arbitrum Goerli")
    ∷ (10, "Optimism")
    ∷ (420, "Optimism Goerli")
    ∷ (56, "BNB Chain")
    ∷ (97, "BNB Testnet")
    ∷ (43114, "Avalanche")
    ∷ (250, "Fantom")
    ∷ (8453, "Base")
    ∷ (100, "Gnosis")
    ∷ []

abbrev avg_block_times : List (ℕ × ℕ)
avg_block_times = (1, 12) ∷ (137, 2) ∷ (42161, 1) ∷ (10, 2) ∷ (56, 3) ∷ (43114, 2) ∷ (8453, 2) ∷ []

abbrev default_avg_block_time : ℕ
default_avg_block_time = 12

abbrev default_lookback : ℕ
default_lookback = 30 * 24 * 60 * 60

-- A row of a table by its number.
abbrev pub row_of : {A : Type 0} → ℕ → List (ℕ × A) → Option A
row_of k [] = none
row_of k ((j, v) ∷ m) = if j == k then some v else row_of k m

abbrev is_space : ℕ → Bool
is_space c = c == 32 || (leb 9 c && leb c 13)

-- `.replace(/\s+/g, '_')`; the first argument tells whether the character before was a space.
abbrev underscored : Bool → Text → Text
underscored after [] = []
underscored after (c ∷ s) =
    let rest = underscored (is_space c) s in
    if is_space c then (if after then rest else b'_' ∷ rest) else c ∷ rest

abbrev pub normalised : Text → Text
normalised s = underscored false (to_lower_case s)

abbrev chain_id_of : Text → List (ℕ × String) → Option ℕ
chain_id_of name [] = none
chain_id_of name ((k, n) ∷ m) =
    if same_text (normalised (codes n)) name then some k else chain_id_of name m

-- `Math.ceil((to - from) / step)` blocks before the latest one, where that is not negative.
abbrev blocks_before : ℕ → ℕ → ℕ → ℕ → ℕ
blocks_before latest from to step =
    if leb from to then latest - (to - from + step - 1) / step else latest + (from - to) / step

-- `parseInt(s, 10)`: a sign, and the digits that follow it.
abbrev is_digit : ℕ → Bool
is_digit c = leb b'0' c && leb c b'9'

abbrev read_digits : Option ℕ → Text → Option ℕ
read_digits seen [] = seen
read_digits seen (c ∷ s) =
    let rest = read_digits (some (or_else seen 0 * 10 + (c - b'0'))) s in
    if is_digit c then rest else seen

abbrev without_spaces : Text → Text
without_spaces [] = []
without_spaces (c ∷ s) = let rest = without_spaces s in if is_space c then rest else c ∷ s

-- The chain that is asked for: none, the one of a number, or a number below zero.
pub data Target : Type 0 where
  any_chain below_zero : Target
  chain : ℕ → Target

abbrev below : Option ℕ → Option Target
below none = none
below (some zero) = some (chain 0)
below (some (suc n)) = some below_zero

abbrev signed : Text → Option Target
signed [] = none
signed (c ∷ s) =
    if c == b'-'
    then below (read_digits none s)
    else Option.map chain (if c == b'+' then read_digits none s else read_digits none (c ∷ s))

abbrev by_name : Option ℕ → Target
by_name none = any_chain
by_name (some k) = chain k

unfoldable pub resolve_chain_id : Option Text → Target
resolve_chain_id none = any_chain
resolve_chain_id (some s) =
    if not (present (some s))
    then any_chain
    else or_else (signed (without_spaces s)) (by_name (chain_id_of (normalised s) chain_names))

abbrev pub other_chain : ℕ → Target → Bool
other_chain id any_chain = false
other_chain id below_zero = true
other_chain id (chain k) = not (id == k)

pub record BlockRange : Type 0 where
  pub from_block : ℕ
  pub to_block : ℕ
  pub from_timestamp : ℕ
  pub to_timestamp : ℕ

-- `from` and `to` in seconds, where they were given; the time now in seconds.
unfoldable pub resolve_block_range : ℕ → ℕ → ℕ → Option ℕ → Option ℕ → BlockRange
resolve_block_range latest now chain_id from to =
    let to_timestamp = or_else to now in
    let from_timestamp = or_else from (to_timestamp - default_lookback) in
    let avg = or_else (row_of chain_id avg_block_times) default_avg_block_time in
    record {
      from_block = blocks_before latest from_timestamp to_timestamp avg;
      to_block = latest;
      from_timestamp = from_timestamp;
      to_timestamp = to_timestamp;
    }

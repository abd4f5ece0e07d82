-- ===== src/Common/Text.antt =====
-- What the program uses of fmt.Sprintf: texts put one after another, and numbers in decimal.
use Prim.Native.String
use smart_retry_orchestrator.Common.Lists.{get_elem?}
use smart_retry_orchestrator.Common.Tests.{ltb, if◌then◌else◌}
use smart_retry_orchestrator.Common.Dict.{get_or}
use smart_retry_orchestrator.Common.{ℕ, List, String, suc, ◌∷◌, [], ◌/◌, ◌%◌, zero, ◌-◌}

unfoldable pub concat : List String → String
concat [] = ""
concat (s ∷ rest) = String.◌++◌ s (concat rest)

digit_text : ℕ → String
digit_text d =
    get_or "?" (get_elem? ("0" ∷ "1" ∷ "2" ∷ "3" ∷ "4" ∷ "5" ∷ "6" ∷ "7" ∷ "8" ∷ "9" ∷ []) d)

decimal_loop : ℕ → ℕ → String
unfolding digit_text
decimal_loop zero n = ""
decimal_loop (suc fuel) n =
    let higher = decimal_loop fuel (n / 10) in
    String.◌++◌ (if ltb n 10 then "" else higher) (digit_text (n % 10))

-- `%d`; each round divides by ten, so `n + 1` rounds are enough.
unfoldable pub decimal : ℕ → String
unfolding decimal_loop
decimal n = decimal_loop (suc n) n

num_digits : ℕ → ℕ → ℕ
num_digits zero n = 1
num_digits (suc fuel) n = let more = num_digits fuel (n / 10) in if ltb n 10 then 1 else suc more

zeros : ℕ → String
zeros zero = ""
zeros (suc n) = String.◌++◌ "0" (zeros n)

-- `%0wd`
unfoldable pub padded : ℕ → ℕ → String
unfolding num_digits zeros decimal
padded width n = String.◌++◌ (zeros (width - num_digits n n)) (decimal n)

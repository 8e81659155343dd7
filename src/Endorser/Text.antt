-- ===== src/Endorser/Text.antt =====
-- The texts that the code formats: decimal numbers and `net.JoinHostPort`.
use fabric_x_samples.Prelude.{
  ℕ, zero, suc, String, ◌+◌, ◌/◌, ◌%◌, List, [], ◌∷◌, ◌<>◌, ltb, contains, if◌then◌else◌,
}
use fabric_x_samples.Tokens.Int.{ℤ, pos, negsuc}

abbrev nth : List String → ℕ → String
nth [] n = ""
nth (s ∷ rest) zero = s
nth (s ∷ rest) (suc n) = nth rest n

abbrev digit : ℕ → String
digit = nth ("0" ∷ "1" ∷ "2" ∷ "3" ∷ "4" ∷ "5" ∷ "6" ∷ "7" ∷ "8" ∷ "9" ∷ [])

-- The digits of a number in front of a text; as many rounds as the number are enough.
decimal : ℕ → ℕ → String → String
decimal zero n text = text
decimal (suc fuel) n text =
    let more = decimal fuel (n / 10) (digit (n % 10) <> text) in
    if ltb n 10 then digit n <> text else more

-- `strconv.Itoa` and `%d`
unfoldable pub itoa : ℤ → String
unfolding decimal
itoa (pos n) = decimal (n + 1) n ""
itoa (negsuc n) = "-" <> decimal (n + 2) (n + 1) ""

-- `net.JoinHostPort`: brackets round a host that has a colon.
unfoldable pub join_host_port : String → String → String
join_host_port host port =
    if contains host ":" then "[" <> host <> "]:" <> port else host <> ":" <> port

-- ===== src/Webhook/Shell.antt =====
-- shellJoin and shellQuote of pkg/webhook/mutate.go.
pub mod Words
use tsecret.Common.{ℕ, List, [], ◌∷◌, ◌++◌, Text, codes, ◌==◌, if◌then◌else◌}

abbrev pub quote : ℕ
quote = b'\''

-- strings.ReplaceAll(value, "'", `'"'"'`)
unfoldable pub replace_quotes : Text → Text
replace_quotes [] = []
replace_quotes (c ∷ s) = (if c == quote then codes "'\"'\"'" else c ∷ []) ++ replace_quotes s

unfoldable pub shell_quote : Text → Text
unfolding replace_quotes
shell_quote value = quote ∷ (replace_quotes value ++ quote ∷ [])

-- strings.Join(quoted, " ")
unfoldable pub shell_join : List Text → Text
shell_join [] = []
shell_join (p ∷ []) = shell_quote p
shell_join (p ∷ ps) = shell_quote p ++ b' ' ∷ shell_join ps

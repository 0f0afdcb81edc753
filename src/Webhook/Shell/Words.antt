-- ===== src/Webhook/Shell/Words.antt =====
-- A description of how a POSIX shell splits a line into words, as far as quoting goes, and the
-- proof that it reads back what shellJoin wrote.
use tsecret.Common.{
  ℕ, Bool, Option, none, some, List, [], ◌∷◌, ◌++◌, ◌≡◌, ◌≢◌, refl, Text, codes, ◌==◌, ◌||◌,
  if◌then◌else◌, arith, append_assoc, append-nil, ap, sym, ◌∙◌,
}
use tsecret.Webhook.Shell.{quote, replace_quotes, shell_quote, shell_join}

-- Between words, in an unquoted part of a word, or in one of the two kinds of quotes.
pub data Mode : Type 0 where
  between bare single double : Mode

-- What `c` does in a mode: it ends the word, adds itself to the word, or only changes the mode.
-- Outside quotes and in double quotes only plain characters are described; on any other the
-- splitter stops.
is_special : ℕ → Bool
is_special c =
    c == b'$'
    || c == b'`'
    || c == b'\\'
    || c == b';'
    || c == b'&'
    || c == b'|'
    || c == b'<'
    || c == b'>'
    || c == b'('
    || c == b')'
    || c == b'*'
    || c == b'?'
    || c == b'['
    || c == b'#'
    || c == b'~'
    || c == b'\n'
    || c == b'\t'

-- The words so far, the current word, and the rest of the line.
unfoldable pub split_words : Text → Mode → List Text → Text → Option (List Text)
unfolding is_special
split_words [] between words word = some words
split_words [] bare words word = some (words ++ word ∷ [])
split_words [] _ words word = none
split_words (c ∷ s) single words word =
    let close = split_words s bare words word in
    let more = split_words s single words (word ++ c ∷ []) in if c == quote then close else more
split_words (c ∷ s) double words word =
    let close = split_words s bare words word in
    let more = split_words s double words (word ++ c ∷ []) in
    if c == b'"' then close else if is_special c then none else more
split_words (c ∷ s) between words word =
    let skip = split_words s between words [] in
    let open_single = split_words s single words [] in
    let open_double = split_words s double words [] in
    let more = split_words s bare words (c ∷ []) in
    if c == b' '
    then skip
    else if c == quote
    then open_single
    else if c == b'"'
    then open_double
    else if is_special c
    then none
    else more
split_words (c ∷ s) bare words word =
    let done = split_words s between (words ++ word ∷ []) [] in
    let open_single = split_words s single words word in
    let open_double = split_words s double words word in
    let more = split_words s bare words (word ++ c ∷ []) in
    if c == b' '
    then done
    else if c == quote
    then open_single
    else if c == b'"'
    then open_double
    else if is_special c
    then none
    else more

-- The words of a line; `none` where a quote is left open or a special character stands unquoted.
unfoldable pub shell_words : Text → Option (List Text)
unfolding split_words
shell_words line = split_words line between [] []

-- How a quote inside the value is written: the quotes are left, the quote stands in double ones,
-- and the quotes are entered again.
escaped_quote :
    (rest word : Text) (words : List Text)
    → split_words (codes "'\"'\"'" ++ rest) single words word
      ≡ split_words rest single words (word ++ quote ∷ [])
unfolding split_words
escaped_quote rest word words = refl

single_step :
    (c : ℕ) (rest word : Text) (words : List Text)
    → c ≢ quote
    → split_words (c ∷ rest) single words word ≡ split_words rest single words (word ++ c ∷ [])
unfolding split_words
single_step c rest word words h = ground arith

in_single :
    (value rest word : Text) (words : List Text)
    → split_words (replace_quotes value ++ quote ∷ rest) single words word
      ≡ split_words rest bare words (word ++ value)
unfolding replace_quotes
in_single [] rest word words = rw append-nil (unfold split_words in refl)
in_single (c ∷ value) rest word words =
    let behind = in_single value rest (word ++ c ∷ []) words in
    let joined = append_assoc word (c ∷ []) value in
    ground (
      arith,
      behind,
      joined,
      escaped_quote (replace_quotes value ++ quote ∷ rest) word words,
      single_step c (replace_quotes value ++ quote ∷ rest) word words,
    )

quoted_word :
    (value rest : Text) (words : List Text)
    → split_words (shell_quote value ++ rest) between words [] ≡ split_words rest bare words value
unfolding split_words shell_quote
quoted_word value rest words = rw append_assoc (in_single value rest [] words)

quoted_last :
    (value : Text) (words : List Text)
    → split_words (shell_quote value) between words [] ≡ some (words ++ value ∷ [])
unfolding split_words
quoted_last value words =
    ap (λ (s : Text). split_words s between words []) (sym (append-nil (shell_quote value)))
    ∙ quoted_word value [] words

word_end :
    (rest word : Text) (words : List Text)
    → split_words (b' ' ∷ rest) bare words word ≡ split_words rest between (words ++ word ∷ []) []
unfolding split_words
word_end rest word words = refl

split_join :
    (parts : List Text) (words : List Text)
    → split_words (shell_join parts) between words [] ≡ some (words ++ parts)
unfolding shell_join
split_join [] words = rw append-nil (unfold split_words in refl)
split_join (p ∷ []) words = quoted_last p words
split_join (p ∷ q ∷ ps) words =
    rw (quoted_word, word_end)
      (split_join (q ∷ ps) (words ++ p ∷ []) ∙ ap some (append_assoc words (p ∷ []) (q ∷ ps)))

-- A POSIX shell splits what shellJoin writes into exactly the parts it was given, whatever bytes
-- they hold.
pub shell_words-shell_join : (parts : List Text) → shell_words (shell_join parts) ≡ some parts
unfolding shell_words
shell_words-shell_join parts = split_join parts []

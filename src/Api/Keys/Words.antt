-- ===== src/Api/Keys/Words.antt =====
-- What strip_keys gives for any payload: the words between the spaces, where an empty word repeats
-- what the buffer holds from before.
use kernel_bypass_group_proj.Base.{
  ℕ, suc, ◌+◌, ◌<◌, ◌≡◌, refl, sym, ◌∙◌, ap, inl, inr, Bytes, List, [], ◌∷◌, ◌++◌, append_assoc,
  append-nil, Option, none, some, Bool, true, false, ◌&&◌, ◌==◌, arith, ltb, leb, ltb→lt,
  Bool-cases, if◌then◌else◌, length, length-append, take, take-length,
}
use kernel_bypass_group_proj.Config.{max_key_length, max_key_per_packet}
use kernel_bypass_group_proj.Api.Keys.{
  space, c_str, store_char, copy_key, skip_command, split_keys, strip_keys,
}

-- the text cut at its spaces, behind a first word that has begun
unfoldable pub words_behind : Bytes → Bytes → List Bytes
words_behind w [] = w ∷ []
words_behind w (c ∷ s) = if c == space then w ∷ words_behind [] s else words_behind (w ++ c ∷ []) s

abbrev pub or_previous : Bytes → Bytes → Bytes
or_previous previous [] = previous
or_previous previous (c ∷ w) = c ∷ w

-- each word as a C string, and for an empty one the word before it
unfoldable pub repeated : Bytes → List Bytes → List Bytes
unfolding c_str
repeated previous [] = []
repeated previous (w ∷ ws) = c_str (or_previous previous w) ∷ repeated (or_previous previous w) ws

unfoldable pub all_fit : List Bytes → Bool
all_fit [] = true
all_fit (w ∷ ws) = ltb (length w) max_key_length && all_fit ws

-- the words behind keys that are there already, if they fit the arrays
outcome : List Bytes → Bytes → List Bytes → Option (List Bytes)
unfolding repeated all_fit
outcome keys previous ws =
    if leb (length keys + length ws) max_key_per_packet
      && (all_fit (repeated previous ws) && all_fit ws)
    then some (keys ++ repeated previous ws)
    else none

and_false : (b : Bool) → (b && false) ≡ false
and_false b = ground arith

and_left : (a b : Bool) → (a && b) ≡ true → a ≡ true
and_left a b h = ground (arith, h)

-- whether one more string can be copied behind the keys that are there
abbrev can_copy : List Bytes → Bytes → Bool
can_copy keys buffer =
    ltb (length keys) max_key_per_packet && ltb (length (c_str buffer)) max_key_length

outcome-cons :
    (keys : List Bytes) (previous w : Bytes) (ws : List Bytes)
    → length w < max_key_length
    → outcome keys previous (w ∷ ws) ≡ (
        if can_copy keys (or_previous previous w)
        then outcome (keys ++ c_str (or_previous previous w) ∷ []) (or_previous previous w) ws
        else none)
unfolding outcome repeated all_fit
outcome-cons keys previous w ws short =
    let k = c_str (or_previous previous w) in
    elim (Bool-cases (ltb (length keys) max_key_per_packet)) [
      | inr over ↦
          let full : leb (length keys + suc (length ws)) max_key_per_packet ≡ false =
            ground (arith, over) in
          rw (over, full) refl
      | inl room ↦ elim (Bool-cases (ltb (length k) max_key_length)) [
        | inr long ↦
            rw (room, long, and_false (leb (length keys + suc (length ws)) max_key_per_packet)) refl
        | inl terminated ↦
            let count : length (keys ++ k ∷ []) + length ws ≡ length keys + suc (length ws) =
              omega (arith, length-append keys (k ∷ [])) in
            let fits : ltb (length w) max_key_length ≡ true = ground (arith, short) in
            rw
              (
                room,
                terminated,
                fits,
                count,
                append_assoc keys (k ∷ []) (repeated (or_previous previous w) ws),
              )
              refl
      ]
    ]

-- The buffer holds the word that has begun, or else the one before it.
record Holds (buffer : Bytes) (j : ℕ) (previous w : Bytes) : Type 0 where
  size : j ≡ length w
  next : (c : ℕ) → take j buffer ++ c ∷ [] ≡ w ++ c ∷ []
  now : or_previous previous w ≡ buffer

fresh-Holds : (buffer : Bytes) → Holds buffer 0 buffer []
fresh-Holds buffer = record { size = refl; next = λ c. refl; now = refl }

or_previous-snoc : (previous w : Bytes) (c : ℕ) → or_previous previous (w ++ c ∷ []) ≡ w ++ c ∷ []
or_previous-snoc previous [] c = refl
or_previous-snoc previous (x ∷ w) c = refl

next-Holds :
    (buffer : Bytes) (j : ℕ) (previous w : Bytes) (c : ℕ)
    → Holds buffer j previous w
    → Holds (take j buffer ++ c ∷ []) (j + 1) previous (w ++ c ∷ [])
next-Holds buffer j previous w c h =
    let longer : j + 1 ≡ length (w ++ c ∷ []) = omega (arith, h.size, length-append w (c ∷ [])) in
    record {
      size = longer;
      next =
          λ e. rw (h.next c, longer) (ap (λ (t : Bytes). t ++ e ∷ []) (take-length (w ++ c ∷ [])));
      now = or_previous-snoc previous w c ∙ sym (h.next c);
    }

-- A word that has outgrown its array stays so.
longer_over :
    (w : Bytes) (c : ℕ)
    → ltb (length w) max_key_length ≡ false
    → ltb (length (w ++ c ∷ [])) max_key_length ≡ false
longer_over w c over = rw (length-append w (c ∷ [])) (ground (arith, over))

words_behind-over :
    (w s : Bytes) → ltb (length w) max_key_length ≡ false → all_fit (words_behind w s) ≡ false
unfolding words_behind all_fit
words_behind-over w [] over = rw over refl
words_behind-over w (c ∷ s) over = elim (Bool-cases (c == space)) [
  | inl gap ↦ rw (words_behind, gap, over) refl
  | inr char ↦ rw (words_behind, char) (words_behind-over (w ++ c ∷ []) s (longer_over w c over))
]

outcome-over :
    (keys : List Bytes) (previous : Bytes) (ws : List Bytes)
    → all_fit ws ≡ false
    → outcome keys previous ws ≡ none
unfolding outcome
outcome-over keys previous ws over =
    rw
      (
        over,
        and_false (all_fit (repeated previous ws)),
        and_false (leb (length keys + length ws) max_key_per_packet),
      )
      refl

outcome-nil :
    (keys : List Bytes) (k previous : Bytes)
    → ltb (length keys) max_key_per_packet ≡ true
    → outcome (keys ++ k ∷ []) previous [] ≡ some (keys ++ k ∷ [])
unfolding outcome repeated all_fit
outcome-nil keys k previous room =
    let few : leb (length (keys ++ k ∷ []) + 0) max_key_per_packet ≡ true =
      rw (length-append keys (k ∷ [])) (ground (arith, room)) in
    rw (few, append-nil (keys ++ k ∷ [])) refl

split_keys-words :
    (s buffer : Bytes) (j : ℕ) (keys : List Bytes) (previous w : Bytes)
    → Holds buffer j previous w
    → length w < max_key_length
    → split_keys s buffer j keys ≡ outcome keys previous (words_behind w s)
unfolding split_keys words_behind copy_key store_char
split_keys-words [] buffer j keys previous w h short =
    sym (outcome-cons keys previous w [] short ∙ rw h.now (last (can_copy keys buffer) refl))
  where
    last :
        (room : Bool)
        → can_copy keys buffer ≡ room
        → (if room then outcome (keys ++ c_str buffer ∷ []) buffer [] else none)
          ≡ copy_key keys buffer
    last true e = rw e (outcome-nil keys (c_str buffer) buffer (and_left _ _ e))
    last false e = rw e refl
split_keys-words (c ∷ s) buffer j keys previous w h short = elim (Bool-cases (c == space)) [
  | inl gap ↦
      rw (split_keys, words_behind, gap)
        (elim (Bool-cases (can_copy keys buffer)) [
          | inl room ↦ rw room (
              split_keys-words s buffer 0 (keys ++ c_str buffer ∷ []) buffer [] (fresh-Holds buffer)
                (ground arith)
              ∙ sym
                  (outcome-cons keys previous w (words_behind [] s) short ∙ rw (h.now, room) refl))
          | inr over ↦
              rw over (
                sym
                  (outcome-cons keys previous w (words_behind [] s) short ∙ rw (h.now, over) refl))
        ])
  | inr char ↦
      rw (split_keys, words_behind, char)
        (elim (Bool-cases (ltb (j + 1) max_key_length)) [
          | inl room ↦ rw room (
              split_keys-words s (take j buffer ++ c ∷ []) (j + 1) keys previous (w ++ c ∷ [])
                (next-Holds buffer j previous w c h)
                (omega (arith, ltb→lt _ _ room, h.size, length-append w (c ∷ []))))
          | inr over ↦
              let longer : ltb (length (w ++ c ∷ [])) max_key_length ≡ false =
                rw (length-append w (c ∷ []), ← h.size) over in
              rw over
                (sym (outcome-over keys previous _ (words_behind-over (w ++ c ∷ []) s longer)))
        ])
]

-- the words behind the first, or an empty word where there is no space
unfoldable pub behind_first : List Bytes → List Bytes
behind_first [] = [] ∷ []
behind_first (w ∷ []) = [] ∷ []
behind_first (w ∷ x ∷ ws) = x ∷ ws

behind_first-cons : (w x s : Bytes) → behind_first (w ∷ words_behind x s) ≡ words_behind x s
unfolding behind_first words_behind
behind_first-cons w x [] = refl
behind_first-cons w x (c ∷ s) = elim (Bool-cases (c == space)) [
  | inl gap ↦ rw (words_behind, gap) refl
  | inr char ↦ rw (words_behind, char) (behind_first-cons w (x ++ c ∷ []) s)
]

words_behind-skip_command :
    (w s : Bytes) → words_behind [] (skip_command s) ≡ behind_first (words_behind w s)
unfolding behind_first words_behind skip_command
words_behind-skip_command w [] = refl
words_behind-skip_command w (c ∷ s) = elim (Bool-cases (c == space)) [
  | inl gap ↦ rw (skip_command, words_behind, gap) (sym (behind_first-cons w [] s))
  | inr char ↦ rw (skip_command, words_behind, char) (words_behind-skip_command (w ++ c ∷ []) s)
]

-- For any payload and whatever the uninitialised buffer holds, strip_keys gives exactly the words
-- of the payload, cut at its spaces, behind the first one (an empty word if there is no space), each
-- as a C string, where an empty word repeats the word before it, or what the buffer held; but it
-- runs past the end of an array exactly if these are more than MAX_KEY_PER_PACKET words, or one has
-- MAX_KEY_LENGTH bytes or more, or an empty one repeats a buffer with no terminator in its
-- MAX_KEY_LENGTH bytes.
pub strip_keys_lem :
    (garbage payload : Bytes)
    → strip_keys garbage payload ≡ (
        let ws = behind_first (words_behind [] payload) in
        if leb (length ws) max_key_per_packet && (all_fit (repeated garbage ws) && all_fit ws)
        then some (repeated garbage ws)
        else none)
unfolding strip_keys outcome
strip_keys_lem garbage payload =
    let ws = words_behind [] (skip_command payload) in
    split_keys-words (skip_command payload) garbage 0 [] garbage [] (fresh-Holds garbage)
      (ground arith)
    ∙ ap
        (λ (n : ℕ).
          if leb n max_key_per_packet && (all_fit (repeated garbage ws) && all_fit ws)
          then some (repeated garbage ws)
          else none)
        (omega arith)
    ∙ ap
        (λ (ws : List Bytes).
          if leb (length ws) max_key_per_packet && (all_fit (repeated garbage ws) && all_fit ws)
          then some (repeated garbage ws)
          else none)
        (words_behind-skip_command [] payload)

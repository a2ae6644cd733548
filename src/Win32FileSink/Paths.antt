-- ===== src/Win32FileSink/Paths.antt =====
-- What the functions on paths write.
use printdrop.Prelude.{
  ℕ, ◌+◌, ◌-◌, ◌≤◌, ◌<◌, ◌≡◌, ◌≢◌, refl, sym, ap, subst, ◌∙◌, Bool, true, false, Bool-cases,
  if_cases, inl, inr, not, ◌&&◌, Option, none, some, ltb, ◌==◌, if◌then◌else◌, List, [], ◌∷◌, ◌++◌,
  append_assoc, append-nil, length, length-append, take, drop, take-length-append, take-append-drop,
  All, All-append, true-ne-false, arith,
}
use printdrop.Bytes.{store, at}
use printdrop.Bytes.Store.{store-take, length-store, at-take}
use printdrop.Bytes.Text.{strlen, text_of, length-text_of, text_of_nonzero, text_of_nul}
use printdrop.Win32FileSink.{
  append_component, copy_path, after_append, after_copy, put_path, win32_path_capacity,
}

abbrev pub IsText : List ℕ → Type 0
IsText = All (λ c. c ≢ 0)

-- A backslash, unless the path is empty or ends in one or in a slash.
abbrev pub needs_backslash : List ℕ → Bool
needs_backslash path =
    ltb 0 (length path)
    && not (at path (length path - 1) == b'\\')
    && not (at path (length path - 1) == b'/')

-- A path and a name below it.
abbrev pub join : List ℕ → List ℕ → List ℕ
join path name = (path ++ (if needs_backslash path then b'\\' ∷ [] else [])) ++ name

-- A buffer holds a text, with its NUL.
pub record Holds (buffer text : List ℕ) : Type 0 where
  pub is_text : text_of buffer ≡ text
  pub fits : length text < length buffer

holds :
    (buffer text rest : List ℕ)
    → IsText text
    → buffer ≡ (text ++ 0 ∷ []) ++ rest
    → Holds buffer text
holds buffer text rest h e = record {
  is_text = ap text_of (e ∙ append_assoc text (0 ∷ []) rest) ∙ text_of_nul text rest h;
  fits =
      omega (arith, ap length e, length-append (text ++ 0 ∷ []) rest, length-append text (0 ∷ []));
}

first_zero : (s : List ℕ) → strlen s ≡ 0 → at s 0 ≡ 0
unfolding strlen
first_zero [] e = refl
first_zero (c ∷ s) e = ground (arith, e)

last-text_of : (s : List ℕ) → at (text_of s) (strlen s - 1) ≡ at s (strlen s - 1)
unfolding strlen
last-text_of s = elim (Bool-cases (strlen s == 0)) [
  | inl e ↦ empty (ground (arith, e))
  | inr e ↦ at-take (strlen s) s (strlen s - 1) (ground (arith, e))
]
  where
    empty : strlen s ≡ 0 → at (text_of s) (strlen s - 1) ≡ at s (strlen s - 1)
    empty e = rw e (sym (first_zero s e))

-- What a function on paths gives, if it gives anything: the text, in a buffer as long as before.
unfoldable Makes : List ℕ → List ℕ → Option (List ℕ) → Type 0
Makes destination text none = Unit
Makes destination text (some made) = Holds made text × (length made ≡ length destination)

copy_path-Makes :
    (destination source : List ℕ) (capacity : ℕ)
    → capacity ≤ length destination
    → Makes destination (text_of source) (copy_path destination capacity source)
unfolding copy_path Makes
copy_path-Makes destination source capacity room =
    let text = text_of source ++ 0 ∷ [] in
    if_cases (Makes destination (text_of source)) (ltb capacity (strlen source + 1)) _ _ (λ e. tt)
      (λ e. (
        holds (store 0 text destination) (text_of source) (drop (0 + length text) destination)
            (text_of_nonzero source)
            (store-take 0 text destination (
              omega (
                arith,
                length-append (text_of source) (0 ∷ []),
                length-text_of source,
                not_below e,
                room,
              ))),
        length-store 0 text destination,
      ))
  where
    not_below : ltb capacity (strlen source + 1) ≡ false → strlen source + 1 ≤ capacity
    not_below e = ground (arith, e)

-- A text written behind another, with its NUL.
pub behind :
    (front text buffer rest : List ℕ) (n : ℕ)
    → buffer ≡ front ++ rest
    → length front ≡ n
    → IsText front
    → IsText text
    → n + length text + 1 ≤ length buffer
    → Holds (store n (text ++ 0 ∷ []) buffer) (front ++ text)
behind front text buffer rest n e size h h' room =
    let closed = text ++ 0 ∷ [] in
    holds (store n closed buffer) (front ++ text) (drop (n + length closed) buffer)
      (All-append (λ c. c ≢ 0) front text h h')
      (store-take n closed buffer (omega (arith, length-append text (0 ∷ []), room))
        ∙ ap (λ xs. (xs ++ closed) ++ drop (n + length closed) buffer)
            (ap (take n) e
              ∙ ap (λ k. take k (front ++ rest)) (sym size)
              ∙ take-length-append front rest)
        ∙ ap (λ xs. xs ++ drop (n + length closed) buffer) (sym (append_assoc front text (0 ∷ []))))

-- The two cases of the separator.
placed :
    (destination name : List ℕ) (b : Bool)
    → strlen destination + (if b then 1 else 0) + strlen name + 1 ≤ length destination
    → Makes destination ((text_of destination ++ (if b then b'\\' ∷ [] else [])) ++ text_of name) (
        some (
          store
            (strlen destination + (if b then 1 else 0))
            (text_of name ++ 0 ∷ [])
            (if b then store (strlen destination) (b'\\' ∷ []) destination else destination)))
unfolding Makes
placed destination name false room = (
  behind (text_of destination ++ []) (text_of name) destination
      (drop (strlen destination) destination) (strlen destination + 0)
      (sym (take-append-drop (strlen destination) destination)
        ∙ ap (λ xs. xs ++ drop (strlen destination) destination)
            (sym (append-nil (text_of destination))))
      (omega (arith, length-append (text_of destination) [], length-text_of destination))
      (All-append (λ c. c ≢ 0) (text_of destination) [] (text_of_nonzero destination) tt)
      (text_of_nonzero name) (omega (arith, room, length-text_of name)),
  length-store (strlen destination + 0) (text_of name ++ 0 ∷ []) destination,
)
placed destination name true room =
    let slashed = store (strlen destination) (b'\\' ∷ []) destination in
    (
      behind (text_of destination ++ b'\\' ∷ []) (text_of name) slashed
          (drop (strlen destination + 1) destination) (strlen destination + 1)
          (store-take (strlen destination) (b'\\' ∷ []) destination (omega (arith, room)))
          (omega
            (arith, length-append (text_of destination) (b'\\' ∷ []), length-text_of destination))
          (All-append (λ c. c ≢ 0) (text_of destination) (b'\\' ∷ []) (text_of_nonzero destination)
            (omega arith, tt))
          (text_of_nonzero name)
          (omega (
            arith,
            room,
            length-text_of name,
            length-store (strlen destination) (b'\\' ∷ []) destination,
          )),
      length-store (strlen destination + 1) (text_of name ++ 0 ∷ []) slashed
          ∙ length-store (strlen destination) (b'\\' ∷ []) destination,
    )

-- `needs_separator`
abbrev needs_separator : List ℕ → Bool
needs_separator d =
    ltb 0 (strlen d) && not (at d (strlen d - 1) == b'\\') && not (at d (strlen d - 1) == b'/')

needs_backslash-text_of : (d : List ℕ) → needs_separator d ≡ needs_backslash (text_of d)
needs_backslash-text_of d = rw (length-text_of d, last-text_of d)

append_component-Makes :
    (destination component : List ℕ) (capacity : ℕ)
    → capacity ≤ length destination
    → Makes destination
        (join (text_of destination) (text_of component))
        (append_component destination capacity component)
unfolding append_component Makes
append_component-Makes destination component capacity room =
    let b = needs_separator destination in
    subst
      (λ c.
        Makes destination
          ((text_of destination ++ (if c then b'\\' ∷ [] else [])) ++ text_of component)
          (append_component destination capacity component))
      (needs_backslash-text_of destination)
      (if_cases
        (Makes destination
          ((text_of destination ++ (if b then b'\\' ∷ [] else [])) ++ text_of component))
        (ltb capacity (strlen destination + (if b then 1 else 0) + strlen component + 1)) _ _
        (λ e. tt) (λ e. placed destination component b (not_below _ e)))
  where
    not_below : (n : ℕ) → ltb capacity n ≡ false → n ≤ length destination
    not_below n e = ground (arith, e, room)

-- Where both steps are made, the buffer holds the joined path; its size stays in any case.
unfoldable pub Puts : List ℕ → Bool × List ℕ → Type 0
Puts text (made, path) = (made ≡ true → Holds path text) × (length path ≡ win32_path_capacity)

after_append-Puts :
    (copied text : List ℕ) (o : Option (List ℕ))
    → length copied ≡ win32_path_capacity
    → Makes copied text o
    → Puts text (after_append copied o)
unfolding after_append Makes Puts
after_append-Puts copied text none size m = (λ e. absurd (true-ne-false (sym e)), size)
after_append-Puts copied text (some appended) size m = (λ e. m.0, m.1 ∙ size)

after_copy-Puts :
    (destination source component : List ℕ) (o : Option (List ℕ))
    → length destination ≡ win32_path_capacity
    → Makes destination (text_of source) o
    → Puts (join (text_of source) (text_of component)) (after_copy destination component o)
unfolding after_copy Makes Puts
after_copy-Puts destination source component none size m =
    (λ e. absurd (true-ne-false (sym e)), size)
after_copy-Puts destination source component (some copied) size m =
    subst (λ t. Puts (join t (text_of component)) (after_copy destination component (some copied)))
      m.0.is_text
      (after_append-Puts copied (join (text_of copied) (text_of component))
        (append_component copied win32_path_capacity component) (m.1 ∙ size)
        (append_component-Makes copied component win32_path_capacity (omega (arith, m.1, size))))

pub put_path-Puts :
    (destination source component : List ℕ)
    → length destination ≡ win32_path_capacity
    → Puts (join (text_of source) (text_of component)) (put_path destination source component)
unfolding put_path
put_path-Puts destination source component size =
    after_copy-Puts destination source component (copy_path destination win32_path_capacity source)
      size (copy_path-Makes destination source win32_path_capacity (omega (arith, size)))

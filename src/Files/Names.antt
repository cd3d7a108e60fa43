-- ===== src/Files/Names.antt =====
-- What `filepath.Clean` makes of a relative path, and what `safeDocRel` (agent/content.go) accepts.
use sideshow.Base.{
  ◌≡◌, refl, ap, sym, subst, ◌∙◌, arith, Bool, true, false, not, ◌||◌, List, [], ◌∷◌, ◌++◌, ◌⊎◌,
  inl, inr, All, All-append, Bool-cases, Text, text, text_eq, text_eq_iff, is_empty, has_prefix,
  trim_space, is_rooted, split_on, join_on, enter, go_up, enter_all, names_of, path_of, clean,
  slash, trim_prefix,
}
use mathlib.Core.List.{reverse, reverse-cons}
use sideshow.Files.Split.{IsPlain, split_on-IsPlain, split_on-join_on, enter_all-IsPlain}
use sideshow.Files.Docs.{is_escaping, check_rel, safe_doc_rel}

-- A name of a file: no dots that move in the tree, and not empty.
abbrev pub is_name : Text → Bool
is_name n = not (is_empty n || text_eq n (text ".") || text_eq n (text ".."))

-- The names of a relative path, from the last to the first, are all names of files, or the first of
-- them is `..`.
abbrev IsStack : List Text → Type 0
IsStack ns = All (λ n. is_name n ≡ true) ns ⊎ ((ms : List Text) × (reverse ns ≡ text ".." ∷ ms))

push-IsStack : (n : Text) (ns : List Text) → is_name n ≡ true → IsStack ns → IsStack (n ∷ ns)
push-IsStack n ns h (inl all) = inl (h, all)
push-IsStack n ns h (inr up) =
    inr (up.0 ++ n ∷ [], reverse-cons n ns ∙ ap (λ ms. ms ++ n ∷ []) up.1)

up-IsStack : (n : Text) (ns ms : List Text) → reverse ns ≡ text ".." ∷ ms → IsStack (n ∷ ns)
up-IsStack n ns ms e = inr (ms ++ n ∷ [], reverse-cons n ns ∙ ap (λ ms. ms ++ n ∷ []) e)

first_stays :
    (n : Text) (ns ms : List Text)
    → text_eq n (text "..") ≡ false
    → ns ++ n ∷ [] ≡ text ".." ∷ ms
    → (ks : List Text) × (ns ≡ text ".." ∷ ks)
first_stays n [] ms h e =
    let same : n ≡ text ".." = cc in absurd (ground (arith, (text_eq_iff n (text "..")).1 same))
first_stays n (m ∷ ns) ms h e = let same : m ≡ text ".." = cc in (ns, ap (λ k. k ∷ ns) same)

go_up-IsStack : (ns : List Text) → IsStack ns → IsStack (go_up false ns)
go_up-IsStack [] h = inr ([], refl)
go_up-IsStack (n ∷ ns) (inl h) = elim (Bool-cases (text_eq n (text ".."))) [
  | inl b ↦ absurd (ground (arith, h.0))
  | inr b ↦ rw b (inl h.1)
]
go_up-IsStack (n ∷ ns) (inr h) = elim (Bool-cases (text_eq n (text ".."))) [
  | inl b ↦ rw b (up-IsStack (text "..") (n ∷ ns) h.0 h.1)
  | inr b ↦ rw b (inr (first_stays n (reverse ns) h.0 b (sym (reverse-cons n ns) ∙ h.1)))
]

enter-IsStack : (n : Text) (ns : List Text) → IsStack ns → IsStack (enter false n ns)
enter-IsStack n ns h = elim (Bool-cases (is_empty n || text_eq n (text "."))) [
  | inl b ↦ rw b h
  | inr b ↦ elim (Bool-cases (text_eq n (text ".."))) [
    | inl c ↦ rw (b, c) (go_up-IsStack ns h)
    | inr c ↦ rw (b, c) (push-IsStack n ns (ground (arith, b, c)) h)
  ]
]

enter_all-IsStack : (ms ns : List Text) → IsStack ns → IsStack (enter_all false ms ns)
unfolding enter_all
enter_all-IsStack [] ns h = h
enter_all-IsStack (m ∷ ms) ns h = enter_all-IsStack ms (enter false m ns) (enter-IsStack m ns h)

All-reverse {ℓ κ} : {A : Type ℓ} (P : A → Type κ) (xs : List A) → All P xs → All P (reverse xs)
All-reverse P [] h = tt
All-reverse P (x ∷ xs) h =
    rw (reverse-cons x xs) (All-append P (reverse xs) (x ∷ []) (All-reverse P xs h.1) (h.0, tt))

-- A path that goes up first is an escape.
up_escapes : (ms : List Text) → is_escaping (join_on slash (text ".." ∷ ms)) ≡ true
unfolding text_eq has_prefix join_on
up_escapes [] = refl
up_escapes (m ∷ ms) = refl

dot_escapes : is_escaping (text ".") ≡ true
unfolding text_eq
dot_escapes = refl

split_join-names :
    (n : Text) (ns : List Text)
    → All IsPlain (n ∷ ns)
    → All (λ k. is_name k ≡ true) (n ∷ ns)
    → All (λ k. is_name k ≡ true) (split_on slash (join_on slash (n ∷ ns)))
split_join-names n ns plain h = rw (split_on-join_on n ns plain) h

split_last-names :
    (ns : List Text) (n : Text)
    → All IsPlain (ns ++ n ∷ [])
    → All (λ k. is_name k ≡ true) (ns ++ n ∷ [])
    → All (λ k. is_name k ≡ true) (split_on slash (join_on slash (ns ++ n ∷ [])))
split_last-names [] n plain h = split_join-names n [] plain h
split_last-names (m ∷ ns) n plain h = split_join-names m (ns ++ n ∷ []) plain h

names_of-IsPlain : (p : Text) → All IsPlain (names_of p)
unfolding names_of
names_of-IsPlain p = enter_all-IsPlain (is_rooted p) (split_on slash p) [] (split_on-IsPlain p) tt

-- The path of names that is no escape is split into names of files.
path_of-names :
    (ns : List Text)
    → All IsPlain ns
    → IsStack ns
    → is_escaping (path_of false ns) ≡ false
    → All (λ n. is_name n ≡ true) (split_on slash (path_of false ns))
path_of-names [] plain h inside = absurd (ground (arith, inside, dot_escapes))
path_of-names (n ∷ ns) plain (inl all) inside =
    subst (λ ks. All (λ k. is_name k ≡ true) (split_on slash (join_on slash ks)))
      (sym (reverse-cons n ns))
      (split_last-names (reverse ns) n
        (subst (All IsPlain) (reverse-cons n ns) (All-reverse IsPlain (n ∷ ns) plain))
        (subst (All (λ k. is_name k ≡ true)) (reverse-cons n ns)
          (All-reverse (λ k. is_name k ≡ true) (n ∷ ns) all)))
path_of-names (n ∷ ns) plain (inr up) inside =
    let inside' = subst (λ ks. is_escaping (join_on slash ks) ≡ false) up.1 inside in
    absurd (ground (arith, inside', up_escapes up.0))

clean-names :
    (p : Text)
    → is_rooted p ≡ false
    → is_escaping (clean p) ≡ false
    → All (λ n. is_name n ≡ true) (split_on slash (clean p))
unfolding clean names_of
clean-names p h inside =
    subst
      (λ b.
        is_escaping (path_of b (enter_all b (split_on slash p) [])) ≡ false
        → All (λ n. is_name n ≡ true)
            (split_on slash (path_of b (enter_all b (split_on slash p) []))))
      (sym h)
      (path_of-names (enter_all false (split_on slash p) [])
        (enter_all-IsPlain false (split_on slash p) [] (split_on-IsPlain p) tt)
        (enter_all-IsStack (split_on slash p) [] (inl tt)))
      inside

check_rel_accepts :
    (p c : Text)
    → check_rel p ≡ inr c
    → (is_rooted p ≡ false) × (is_escaping (clean p) ≡ false) × (clean p ≡ c)
check_rel_accepts p c h = ground arith

check_rel-names :
    (p c : Text) → check_rel p ≡ inr c → All (λ n. is_name n ≡ true) (split_on slash c)
check_rel-names p c h =
    let a = check_rel_accepts p c h in
    subst (λ k. All (λ n. is_name n ≡ true) (split_on slash k)) a.2 (clean-names p a.0 a.1)

-- A document path that is accepted is a relative path of names of files: no component is empty,
-- `.` or `..`.
pub safe_doc_rel-names :
    (rel c : Text) → safe_doc_rel rel ≡ inr c → All (λ n. is_name n ≡ true) (split_on slash c)
unfolding safe_doc_rel
safe_doc_rel-names rel c h = check_rel-names (trim_prefix (trim_space rel) (text "/docfs/")) c h

-- ===== src/Memory/Contract.antt =====
-- What the store of facts promises (adapters/memory/inmem/store.go): a map from a user and an id to
-- a fact.
use mathlib.Core.Path.{subst}
use ia_harness.Base.{
  ◌≡◌, ◌≢◌, refl, ap, sym, ◌∙◌, inl, inr, String, str_eq, eq_iff, Bool, true, false, ◌&&◌, Option,
  none, some, List, [], ◌∷◌, All, arith, Bool-cases, Result, ok, failed, is_empty, if◌then◌else◌,
}
use ia_harness.Core.Message.{Bytes, Time}
use ia_harness.Core.Config.{Fact}
use ia_harness.Memory.{
  Store, new, write_user, MemoryError, no_user, no_text, named, updated, created, put_in, put,
  delete_in, delete,
}

unfoldable pub find : String → List Fact → Option Fact
find id [] = none
find id (f ∷ fs) = let later = find id fs in if str_eq f.id id then some f else later

-- The abstract view of a store.
abbrev pub fact_of : Store → String → String → Option Fact
fact_of s user id = find id (s.facts user)

-- No id stands for two facts.
unfoldable pub IsDistinct : List Fact → Type 0
IsDistinct [] = Unit
IsDistinct (f ∷ fs) = (find f.id fs ≡ none) × IsDistinct fs

-- Every user has the facts of that user only, and none twice.
pub record IsSound (s : Store) : Type 0 where
  pub distinct : (user : String) → IsDistinct (s.facts user)
  pub owned : (user : String) → All (λ f. f.user_id ≡ user) (s.facts user)

-- What is stored for a fact, where another one stood before, or none.
abbrev pub replaced : Time → Fact → Option Fact → Fact
replaced now f none = created now f
replaced now f (some old) = updated now f old

differs : (a b c : String) → str_eq a b ≡ false → str_eq b c ≡ true → str_eq a c ≡ false
differs a b c apart same = subst (λ x. str_eq a x ≡ false) ((eq_iff b c).0 same) apart

differs_back : (a b : String) → str_eq a b ≡ false → str_eq b a ≡ false
differs_back a b apart = elim (Bool-cases (str_eq b a)) [
  | inl same ↦ absurd (ground (arith, apart, (eq_iff a b).1 (sym ((eq_iff b a).0 same))))
  | inr other ↦ other
]

either : (b : Bool) {o : Option Fact} → o ≡ none → (if b then none else o) ≡ none
either true h = refl
either false h = h

here :
    (asked : Bool) (f old : Fact) (later : Option Fact)
    → (if asked then some f else later)
      ≡ (if asked then some f else if asked then some old else later)
here true f old later = refl
here false f old later = refl

nothing : (asked : Bool) → ◌≡◌ {A = Option Fact} none (if asked then none else none)
nothing true = refl
nothing false = refl

gone_here :
    (asked : Bool) (f : Fact) (later : Option Fact)
    → (asked ≡ true → later ≡ none)
    → later ≡ (if asked then none else if asked then some f else later)
gone_here true f later h = h refl
gone_here false f later h = refl

find-put_in :
    (now : Time) (f : Fact) (fs : List Fact) (id : String)
    → find id (put_in now f fs)
      ≡ (if str_eq f.id id then some (replaced now f (find f.id fs)) else find id fs)
unfolding find put_in
find-put_in now f [] id = refl
find-put_in now f (old ∷ rest) id = elim (Bool-cases (str_eq old.id f.id)) [
  | inl same ↦
      rw (same, ap (λ x. str_eq x id) ((eq_iff old.id f.id).0 same))
        (here (str_eq f.id id) (updated now f old) old (find id rest))
  | inr other ↦ elim (Bool-cases (str_eq f.id id)) [
    | inl asked ↦
        rw (other, asked, differs old.id f.id id other asked, find-put_in now f rest id, asked) refl
    | inr not_asked ↦ rw (other, not_asked, find-put_in now f rest id, not_asked) refl
  ]
]

find-delete_in :
    (gone : String) (fs : List Fact) (id : String)
    → IsDistinct fs
    → find id (delete_in gone fs) ≡ (if str_eq gone id then none else find id fs)
unfolding find delete_in IsDistinct
find-delete_in gone [] id h = nothing (str_eq gone id)
find-delete_in gone (f ∷ rest) id h = elim (Bool-cases (str_eq f.id gone)) [
  | inl same ↦
      rw (same, ap (λ x. str_eq x id) ((eq_iff f.id gone).0 same))
        (gone_here (str_eq gone id) f (find id rest) (λ asked.
          subst (λ x. find x rest ≡ none) ((eq_iff f.id gone).0 same ∙ (eq_iff gone id).0 asked)
            h.0))
  | inr other ↦ elim (Bool-cases (str_eq gone id)) [
    | inl asked ↦
        rw (other, asked, differs f.id gone id other asked, find-delete_in gone rest id h.1, asked)
          refl
    | inr not_asked ↦ rw (other, not_asked, find-delete_in gone rest id h.1, not_asked) refl
  ]
]

put_in-IsDistinct :
    (now : Time) (f : Fact) (fs : List Fact) → IsDistinct fs → IsDistinct (put_in now f fs)
unfolding IsDistinct put_in find
put_in-IsDistinct now f [] h = (refl, tt)
put_in-IsDistinct now f (old ∷ rest) h = elim (Bool-cases (str_eq old.id f.id)) [
  | inl same ↦ rw same (subst (λ x. find x rest ≡ none) ((eq_iff old.id f.id).0 same) h.0, h.1)
  | inr other ↦ rw other (
    rw (find-put_in now f rest old.id, differs_back old.id f.id other) h.0,
    put_in-IsDistinct now f rest h.1,
  )
]

delete_in-IsDistinct :
    (gone : String) (fs : List Fact) → IsDistinct fs → IsDistinct (delete_in gone fs)
unfolding IsDistinct delete_in
delete_in-IsDistinct gone [] h = tt
delete_in-IsDistinct gone (f ∷ rest) h = elim (Bool-cases (str_eq f.id gone)) [
  | inl same ↦ rw same h.1
  | inr other ↦ rw other (
    find-delete_in gone rest f.id h.1 ∙ either (str_eq gone f.id) h.0,
    delete_in-IsDistinct gone rest h.1,
  )
]

module _ (P : Fact → Type 0) where
  All-put_in :
      (now : Time) (f : Fact) (fs : List Fact)
      → ((t : Time) → P (record f { created_at = t; updated_at = now }))
      → All P fs
      → All P (put_in now f fs)
  unfolding put_in
  All-put_in now f [] new all = (new _, tt)
  All-put_in now f (old ∷ rest) new all = elim (Bool-cases (str_eq old.id f.id)) [
    | inl same ↦ rw same (new _, all.1)
    | inr other ↦ rw other (all.0, All-put_in now f rest new all.1)
  ]

  All-delete_in : (gone : String) (fs : List Fact) → All P fs → All P (delete_in gone fs)
  unfolding delete_in
  All-delete_in gone [] all = tt
  All-delete_in gone (f ∷ rest) all = elim (Bool-cases (str_eq f.id gone)) [
    | inl same ↦ rw same all.1
    | inr other ↦ rw other (all.0, All-delete_in gone rest all.1)
  ]

write_user-IsSound :
    (user : String) (fs : List Fact) (s : Store)
    → IsSound s
    → IsDistinct fs
    → All (λ f. f.user_id ≡ user) fs
    → IsSound (write_user user fs s)
write_user-IsSound user fs s h distinct owned = record {
  distinct = λ other. elim (Bool-cases (str_eq other user)) [
    | inl same ↦ rw same distinct
    | inr apart ↦ rw apart (h.distinct other)
  ];
  owned = λ other. elim (Bool-cases (str_eq other user)) [
    | inl same ↦ rw (same, (eq_iff other user).0 same) owned
    | inr apart ↦ rw apart (h.owned other)
  ];
}

abbrev pub same_place : String → String → String → String → Bool
same_place user id user' id' = str_eq user' user && str_eq id id'

-- What a write does to the view of a store: nothing where it is refused, for want of a user or of text and
-- for nothing else; the fact at its user and id,
-- with the birth of the one that it replaces, and everything else as it was.
pub data IsPut (now : Time) (fresh_id : String) (f : Fact) (s : Store)
    : Result MemoryError Store → Type 0 where
  without_user : f.user_id ≡ "" → IsPut now fresh_id f s (failed no_user)
  without_text : f.text ≡ [] → IsPut now fresh_id f s (failed no_text)
  stored :
      (s' : Store)
      → ◌≢◌ {A = String} f.user_id ""
      → ◌≢◌ {A = Bytes} f.text []
      → IsSound s'
      → ((user id : String)
          → fact_of s' user id ≡ (
              if same_place f.user_id (named fresh_id f).id user id
              then some
                  (replaced now (named fresh_id f) (fact_of s f.user_id (named fresh_id f).id))
              else fact_of s user id))
      → IsPut now fresh_id f s (ok s')

named-user : (fresh_id : String) (f : Fact) → (named fresh_id f).user_id ≡ f.user_id
named-user fresh_id f = elim (Bool-cases (str_eq f.id "")) [
  | inl unnamed ↦ rw unnamed refl
  | inr has_id ↦ rw has_id refl
]

empty-nil : {A : Type 0} (xs : List A) → is_empty xs ≡ true → xs ≡ []
empty-nil [] h = refl
empty-nil (x ∷ xs) h = absurd (ground (arith, h))

has_text : (text : Bytes) → is_empty text ≡ false → ◌≢◌ {A = Bytes} text []
has_text text h e = ground (arith, h, ap is_empty e)

module _ (s : Store) (sound : IsSound s) where
  -- At the user of a write there is what was written; the others have what they had.
  view :
      (user other : String) (fs : List Fact) (id place : String) (written : Option Fact)
      → find id fs ≡ (if str_eq place id then written else find id (s.facts user))
      → fact_of (write_user user fs s) other id
        ≡ (if same_place user place other id then written else fact_of s other id)
  view user other fs id place written h = elim (Bool-cases (str_eq other user)) [
    | inl same ↦ rw (same, h, ap (λ u. find id (s.facts u)) ((eq_iff other user).0 same)) refl
    | inr apart ↦ rw apart refl
  ]

  accepted :
      (now : Time) (fresh_id : String) (f : Fact)
      → ◌≢◌ {A = String} f.user_id ""
      → ◌≢◌ {A = Bytes} f.text []
      → IsPut now fresh_id f s
          (ok (write_user f.user_id (put_in now (named fresh_id f) (s.facts f.user_id)) s))
  accepted now fresh_id f user words =
      let g = named fresh_id f in
      stored (write_user f.user_id (put_in now g (s.facts f.user_id)) s) user words
        (write_user-IsSound f.user_id (put_in now g (s.facts f.user_id)) s sound
          (put_in-IsDistinct now g (s.facts f.user_id) (sound.distinct f.user_id))
          (All-put_in (λ (x : Fact). x.user_id ≡ f.user_id) now g (s.facts f.user_id)
            (λ t. named-user fresh_id f) (sound.owned f.user_id)))
        (λ user id.
          view f.user_id user (put_in now g (s.facts f.user_id)) id g.id
            (some (replaced now g (fact_of s f.user_id g.id)))
            (find-put_in now g (s.facts f.user_id) id))

  -- A write to a sound store.
  pub put-IsPut :
      (now : Time) (fresh_id : String) (f : Fact) → IsPut now fresh_id f s (put now fresh_id f s)
  unfolding put
  put-IsPut now fresh_id f = elim (Bool-cases (str_eq f.user_id "")) [
    | inl nobody ↦ rw nobody (without_user ((eq_iff f.user_id "").0 nobody))
    | inr user ↦ elim (Bool-cases (is_empty f.text)) [
      | inl blank ↦ rw (user, blank) (without_text (empty-nil f.text blank))
      | inr words ↦
          rw (user, words)
            (accepted now fresh_id f (λ h. ground (arith, user, (eq_iff f.user_id "").1 h))
              (has_text f.text words))
    ]
  ]

  -- A removal from a sound store leaves a sound one, without the fact of that user and id, and with every other fact.
  pub delete-IsDeleted :
      (user gone : String)
      → IsSound (delete user gone s)
        × ((other id : String)
            → fact_of (delete user gone s) other id
              ≡ (if same_place user gone other id then none else fact_of s other id))
  unfolding delete
  delete-IsDeleted user gone = (
    write_user-IsSound user (delete_in gone (s.facts user)) s sound
        (delete_in-IsDistinct gone (s.facts user) (sound.distinct user))
        (All-delete_in (λ (x : Fact). x.user_id ≡ user) gone (s.facts user) (sound.owned user)),
    λ other id.
        view user other (delete_in gone (s.facts user)) id gone none
          (find-delete_in gone (s.facts user) id (sound.distinct user)),
  )

pub new-IsSound : IsSound new
unfolding IsDistinct
new-IsSound = record { distinct = λ user. tt; owned = λ user. tt }

-- ===== src/Session/Storage/Laws.antt =====
-- What is found in the storage after an entry is set or removed, and after `clearUserContentKeys`
-- of lib/branding.ts.
use prompt_maker_studio.Base.{
  text_eq_comm, if◌then◌else◌, Bool-cases, false_ne_true, filter, Text, text_eq, eq_of_text_eq,
  includes, ◌≡◌, refl, sym, ◌∙◌, subst, inl, inr, Bool, true, false, ◌&&◌, ◌||◌, Option, none, some,
  List, [], ◌∷◌, map, arith,
}
use prompt_maker_studio.Session.Storage.{
  Store, get_item, set_item, remove_item, is_user_content, remove_all, clear_user_content,
}

pub get_item-remove_item {ℓ} :
    {A : Type ℓ} (key other : Text) (store : List (Text × A))
    → get_item (remove_item key store) other
      ≡ (if text_eq other key then none else get_item store other)
unfolding get_item remove_item
get_item-remove_item key other [] = ground arith
get_item-remove_item key other ((k, v) ∷ store) = elim (Bool-cases (text_eq k key)) [
  | inl this_one ↦
      rw
        (
          this_one,
          get_item-remove_item key other store,
          eq_of_text_eq k key this_one,
          text_eq_comm key other,
        )
        (elim (Bool-cases (text_eq other key)) [ inl e ↦ rw e | inr e ↦ rw e ])
  | inr kept ↦ elim (Bool-cases (text_eq k other)) [
    | inl found ↦
        rw (kept, found)
          (sym (rw (subst (λ t. text_eq t key ≡ false) (eq_of_text_eq k other found) kept)))
    | inr later ↦ rw (kept, later) (get_item-remove_item key other store)
  ]
]

pub get_item-set_item {ℓ} :
    {A : Type ℓ} (key : Text) (value : A) (other : Text) (store : List (Text × A))
    → get_item (set_item key value store) other
      ≡ (if text_eq key other then some value else get_item store other)
unfolding get_item set_item
get_item-set_item key value other [] = refl
get_item-set_item key value other ((k, v) ∷ store) = elim (Bool-cases (text_eq k key)) [
  | inl this_one ↦
      rw (this_one, eq_of_text_eq k key this_one)
        (elim (Bool-cases (text_eq key other)) [ inl e ↦ rw e | inr e ↦ rw e ])
  | inr kept ↦ elim (Bool-cases (text_eq k other)) [
    | inl found ↦
        rw (kept, found)
          (sym (
            rw (
              text_eq_comm key other,
              subst (λ t. text_eq t key ≡ false) (eq_of_text_eq k other found) kept,
            )))
    | inr later ↦ rw (kept, later) (get_item-set_item key value other store)
  ]
]

pub if-if :
    (a b : Bool) (o : Option Text)
    → (if b then none else if a then none else o) ≡ (if a || b then none else o)
if-if a b o = ground arith

get_item-remove_all :
    (keys : List Text) (key : Text) (store : Store)
    → get_item (remove_all keys store) key
      ≡ (if includes keys key then none else get_item store key)
unfolding remove_all
get_item-remove_all [] key store = refl
get_item-remove_all (k ∷ keys) key store =
    get_item-remove_all keys key (remove_item k store)
    ∙ rw (get_item-remove_item k key store, text_eq_comm key k)
        (if-if (text_eq k key) (includes keys key) (get_item store key))

pub includes-filter :
    (p : Text → Bool) (keys : List Text) (key : Text)
    → includes (filter p keys) key ≡ (p key && includes keys key)
includes-filter p [] key = ground arith
includes-filter p (k ∷ keys) key = elim (Bool-cases (text_eq k key)) [
  | inl this_one ↦
      let e = eq_of_text_eq k key this_one in
      elim (Bool-cases (p k)) [
        | inl keep ↦ rw (keep, this_one) (sym (rw (subst (λ t. p t ≡ true) e keep)))
        | inr cut ↦ rw (cut, includes-filter p keys key) (rw (subst (λ t. p t ≡ false) e cut))
      ]
  | inr other ↦ elim (Bool-cases (p k)) [
    | inl keep ↦ rw (keep, other) (includes-filter p keys key)
    | inr cut ↦ rw (cut, other) (includes-filter p keys key)
  ]
]

-- A key that is not listed has no value.
pub get_item-none :
    (store : Store) (key : Text)
    → includes (map (λ e. e.0) store) key ≡ false
    → get_item store key ≡ none
unfolding get_item
get_item-none [] key h = refl
get_item-none ((k, v) ∷ store) key h = elim (Bool-cases (text_eq k key)) [
  | inl e ↦ absurd (false_ne_true (sym h ∙ rw e))
  | inr e ↦ rw e (get_item-none store key (rw e at h))
]

-- `clearUserContentKeys` removes exactly what `is_user_content` says: nothing is found under such a key, and under any
-- other key what was found before.
pub get_item-clear_user_content :
    (store : Store) (key : Text)
    → get_item (clear_user_content store) key
      ≡ (if is_user_content key then none else get_item store key)
unfolding clear_user_content
get_item-clear_user_content store key =
    get_item-remove_all (filter is_user_content (map (λ e. e.0) store)) key store
    ∙ rw (includes-filter is_user_content (map (λ e. e.0) store) key)
        (elim (Bool-cases (includes (map (λ e. e.0) store) key)) [
          | inl present ↦ rw present (ground arith)
          | inr missing ↦ rw (missing, get_item-none store key missing) (ground arith)
        ])

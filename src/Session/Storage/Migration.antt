-- ===== src/Session/Storage/Migration.antt =====
-- What is found in the storage after the move of the entries to the new names
-- (`migrateLegacyStorageKeys` of lib/branding.ts).
use prompt_maker_studio.Base.{
  text_eq_comm, eq_of_strip, if◌then◌else◌, Bool-cases, Option-cases, none_ne_some, false_ne_true,
  true_of_not, false_of_not, drop, filter, All, Text, text, text_eq, text_eq_refl, eq_of_text_eq,
  includes, strip, ◌≡◌, refl, sym, ap, ◌∙◌, subst, inl, inr, Bool, true, false, not, ◌&&◌, Option,
  none, some, List, [], ◌∷◌, ◌++◌, map, arith,
}
use prompt_maker_studio.Session.Storage.{
  Store, get_item, is_some, starts_with, renamed_key, move_value, migrate_key, migrate_keys,
  is_legacy, migrate_legacy_keys,
}
use prompt_maker_studio.Session.Storage.Laws.{
  get_item-remove_item, get_item-set_item, if-if, includes-filter, get_item-none,
}

-- `remove_item` and `set_item` of the loop, as what they leave to be found.
renamed_key-is_new : (key : Text) → is_legacy (renamed_key key) ≡ false
unfolding is_legacy renamed_key starts_with
renamed_key-is_new key = refl

renamed_ne : (key other : Text) → is_legacy other ≡ true → text_eq (renamed_key key) other ≡ false
renamed_ne key other h = false_of_not _ (λ e.
    false_ne_true
      (sym (renamed_key-is_new key) ∙ (ap is_legacy (eq_of_text_eq (renamed_key key) other e) ∙ h)))

legacy_ne :
    (key other : Text) → is_legacy key ≡ true → is_legacy other ≡ false → text_eq other key ≡ false
legacy_ne key other h n =
    false_of_not _ (λ e. false_ne_true (sym n ∙ (ap is_legacy (eq_of_text_eq other key e) ∙ h)))

get_item-move_value :
    (key other : Text) (v : Option Text) (store : Store)
    → get_item (move_value key v store) other ≡ (
        if text_eq (renamed_key key) other
          && is_some v
          && not (is_some (get_item store (renamed_key key)))
        then v
        else get_item store other)
unfolding move_value
get_item-move_value key other none store = ground arith
get_item-move_value key other (some v) store =
    elim (Bool-cases (is_some (get_item store (renamed_key key)))) [
      | inl taken ↦ rw taken (ground arith)
      | inr free ↦ rw (free, get_item-set_item (renamed_key key) v other store) (ground arith)
    ]

get_item-migrate_key :
    (key other : Text) (store : Store)
    → get_item (migrate_key key store) other ≡ (
        if text_eq other key
        then none
        else if text_eq (renamed_key key) other
            && is_some (get_item store key)
            && not (is_some (get_item store (renamed_key key)))
        then get_item store key
        else get_item store other)
unfolding migrate_key
get_item-migrate_key key other store =
    get_item-remove_item key other (move_value key (get_item store key) store)
    ∙ rw (get_item-move_value key other (get_item store key) store)

-- What is kept under a current name stays as it is.
migrate_keys-kept :
    (keys : List Text) (other v : Text) (store : Store)
    → All (λ k. is_legacy k ≡ true) keys
    → is_legacy other ≡ false
    → get_item store other ≡ some v
    → get_item (migrate_keys keys store) other ≡ some v
unfolding migrate_keys
migrate_keys-kept [] other v store h n e = e
migrate_keys-kept (k ∷ keys) other v store (here, h) n e =
    migrate_keys-kept keys other v (migrate_key k store) h n (
      get_item-migrate_key k other store
      ∙ rw (legacy_ne k other here n) (still_there k other v store e))
  where
    still_there :
        (k other v : Text) (store : Store)
        → get_item store other ≡ some v
        → (if text_eq (renamed_key k) other
              && is_some (get_item store k)
              && not (is_some (get_item store (renamed_key k)))
            then get_item store k
            else get_item store other)
          ≡ some v
    still_there k other v store e = elim (Bool-cases (text_eq (renamed_key k) other)) [
      | inl this_one ↦
          let f : get_item store (renamed_key k) ≡ some v =
            subst (λ t. get_item store t ≡ some v)
              (sym (eq_of_text_eq (renamed_key k) other this_one)) e in
          rw (this_one, f) (ground arith)
      | inr another ↦ rw another e
    ]

migrate_keys-gone :
    (keys : List Text) (other : Text) (store : Store)
    → All (λ k. is_legacy k ≡ true) keys
    → is_legacy other ≡ true
    → get_item (migrate_keys keys store) other
      ≡ (if includes keys other then none else get_item store other)
unfolding migrate_keys
migrate_keys-gone [] other store h l = refl
migrate_keys-gone (k ∷ keys) other store (here, h) l =
    migrate_keys-gone keys other (migrate_key k store) h l
    ∙ rw (get_item-migrate_key k other store, renamed_ne k other l, text_eq_comm other k)
        (if-if (text_eq k other) (includes keys other) (get_item store other))

-- A legacy key is its prefix and the suffix that is kept.
legacy_parts : (key : Text) → is_legacy key ≡ true → key ≡ text "prompt-maker:" ++ drop 13 key
unfolding is_legacy starts_with
legacy_parts key h = by_strip (strip (text "prompt-maker:") key) refl h
  where
    by_strip :
        (o : Option Text)
        → strip (text "prompt-maker:") key ≡ o
        → is_some o ≡ true
        → key ≡ text "prompt-maker:" ++ drop 13 key
    by_strip none e k = absurd (false_ne_true k)
    by_strip (some rest) e k =
        let f = eq_of_strip (text "prompt-maker:") key rest e in
        f ∙ ap (λ t. text "prompt-maker:" ++ t) (sym (ap (drop 13) f))

renamed_apart :
    (j k : Text)
    → is_legacy j ≡ true
    → is_legacy k ≡ true
    → text_eq (renamed_key j) (renamed_key k) ≡ text_eq j k
unfolding renamed_key
renamed_apart j k hj hk =
    subst (λ t. text_eq (drop 13 j) (drop 13 k) ≡ text_eq t k) (sym (legacy_parts j hj))
      (subst (λ t. text_eq (drop 13 j) (drop 13 k) ≡ text_eq (text "prompt-maker:" ++ drop 13 j) t)
        (sym (legacy_parts k hk)) refl)

migrate_keys-moved :
    (keys : List Text) (k v : Text) (store : Store)
    → All (λ j. is_legacy j ≡ true) keys
    → is_legacy k ≡ true
    → includes keys k ≡ true
    → get_item store k ≡ some v
    → get_item store (renamed_key k) ≡ none
    → get_item (migrate_keys keys store) (renamed_key k) ≡ some v
unfolding migrate_keys
migrate_keys-moved [] k v store h l i e f = absurd (false_ne_true i)
migrate_keys-moved (j ∷ keys) k v store (here, h) l i e f = elim (Bool-cases (text_eq j k)) [
  | inl this_one ↦
      subst (λ t. get_item (migrate_keys keys (migrate_key t store)) (renamed_key k) ≡ some v)
        (sym (eq_of_text_eq j k this_one))
        (migrate_keys-kept keys (renamed_key k) v (migrate_key k store) h (renamed_key-is_new k) (
          get_item-migrate_key k (renamed_key k) store
          ∙ rw
              (
                legacy_ne k (renamed_key k) l (renamed_key-is_new k),
                text_eq_refl (renamed_key k),
                e,
                f,
              )
              refl))
  | inr other ↦
      migrate_keys-moved keys k v (migrate_key j store) h l (rw other at i)
        (get_item-migrate_key j k store ∙ rw (text_eq_comm k j, other, renamed_ne j k l) e)
        (get_item-migrate_key j (renamed_key k) store
          ∙ rw
              (
                legacy_ne j (renamed_key k) here (renamed_key-is_new k),
                renamed_apart j k here l,
                other,
              )
              f)
]

All-filter : (p : Text → Bool) (keys : List Text) → All (λ k. p k ≡ true) (filter p keys)
All-filter p [] = tt
All-filter p (k ∷ keys) = elim (Bool-cases (p k)) [
  | inl keep ↦ rw keep (keep, All-filter p keys)
  | inr cut ↦ rw cut (All-filter p keys)
]

found_key :
    (store : Store) (k v : Text)
    → get_item store k ≡ some v
    → includes (map (λ e. e.0) store) k ≡ true
found_key store k v e =
    true_of_not _ (λ missing. none_ne_some (sym (get_item-none store k missing) ∙ e))

if_none : (b : Bool) (o : Option Text) → o ≡ none → (if b then none else o) ≡ none
if_none b o e = ground arith

-- Where neither name has a value, neither gets one.
migrate_keys-absent :
    (keys : List Text) (k : Text) (store : Store)
    → All (λ j. is_legacy j ≡ true) keys
    → is_legacy k ≡ true
    → get_item store k ≡ none
    → get_item store (renamed_key k) ≡ none
    → get_item (migrate_keys keys store) (renamed_key k) ≡ none
unfolding migrate_keys
migrate_keys-absent [] k store h l e f = f
migrate_keys-absent (j ∷ keys) k store (here, h) l e f =
    migrate_keys-absent keys k (migrate_key j store) h l
      (get_item-migrate_key j k store
        ∙ rw (renamed_ne j k l) (if_none (text_eq k j) (get_item store k) e))
      (elim (Bool-cases (text_eq j k)) [
        | inl this_one ↦
            let no_value = ap (get_item store) (eq_of_text_eq j k this_one) ∙ e in
            get_item-migrate_key j (renamed_key k) store
            ∙ rw (legacy_ne j (renamed_key k) here (renamed_key-is_new k), no_value) (ground arith)
        | inr other ↦
            get_item-migrate_key j (renamed_key k) store
            ∙ rw
                (
                  legacy_ne j (renamed_key k) here (renamed_key-is_new k),
                  renamed_apart j k here l,
                  other,
                )
                f
      ])

-- The value of an old name after the move, whether it had one before or not.
migrate_legacy_keys-gone :
    (store : Store) (key : Text)
    → is_legacy key ≡ true
    → get_item (migrate_legacy_keys store) key ≡ none
unfolding migrate_legacy_keys
migrate_legacy_keys-gone store key l =
    let names = map (λ e. e.0) store in
    migrate_keys-gone _ key store (All-filter is_legacy names) l
    ∙ rw (includes-filter is_legacy names key, l)
        (elim (Bool-cases (includes names key)) [
          | inl present ↦ rw present refl
          | inr missing ↦ rw (missing, get_item-none store key missing) refl
        ])

migrate_legacy_keys-renamed :
    (store : Store) (key : Text)
    → is_legacy key ≡ true
    → get_item (migrate_legacy_keys store) (renamed_key key) ≡ (
        if is_some (get_item store (renamed_key key))
        then get_item store (renamed_key key)
        else get_item store key)
unfolding migrate_legacy_keys
migrate_legacy_keys-renamed store key l =
    let names = map (λ e. e.0) store in
    let legacy = All-filter is_legacy names in
    elim (Option-cases (get_item store (renamed_key key))) [
      | inl free ↦ elim (Option-cases (get_item store key)) [
        | inl no_value ↦
            migrate_keys-absent _ key store legacy l no_value free ∙ sym (rw (free, no_value) refl)
        | inr (v, e) ↦
            let listed =
              includes-filter is_legacy names key ∙ rw (l, found_key store key v e) refl in
            migrate_keys-moved _ key v store legacy l listed e free ∙ sym (rw (free, e) refl)
      ]
      | inr (w, taken) ↦
          migrate_keys-kept _ (renamed_key key) w store legacy (renamed_key-is_new key) taken
          ∙ sym (rw taken refl)
    ]

-- For every name that `prompt-maker:` begins, whether or not anything is kept under it: nothing is
-- found under it after the move, and under the name with `prompt-maker-studio:` in its place is
-- found what was there before or, when nothing was there, what was kept under the old name, if
-- anything was.
pub migrate_legacy_keys_moves :
    (store : Store) (suffix : Text)
    → let old = text "prompt-maker:" ++ suffix in
      let new = text "prompt-maker-studio:" ++ suffix in
      (get_item (migrate_legacy_keys store) old ≡ none)
      × (get_item (migrate_legacy_keys store) new
          ≡ (if is_some (get_item store new) then get_item store new else get_item store old))
unfolding is_legacy starts_with renamed_key
migrate_legacy_keys_moves store suffix =
    let old = text "prompt-maker:" ++ suffix in
    (migrate_legacy_keys-gone store old refl, migrate_legacy_keys-renamed store old refl)

-- What was kept under any other name, a current one above all, is found there as before.
pub migrate_legacy_keys_keeps :
    (store : Store) (key v : Text)
    → get_item store key ≡ some v
    → is_legacy key ≡ false
    → get_item (migrate_legacy_keys store) key ≡ some v
unfolding migrate_legacy_keys
migrate_legacy_keys_keeps store key v e n =
    migrate_keys-kept _ key v store (All-filter is_legacy (map (λ e. e.0) store)) n e

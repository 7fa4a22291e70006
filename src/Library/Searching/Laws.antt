-- ===== src/Library/Searching/Laws.antt =====
-- The search box against a router that echoes the queries that the page wrote, late and not all of
-- them, but in their order.
use prompt_maker_studio.Base.{Text, includes, ◌≡◌, true, false, List, [], ◌∷◌, ◌++◌}
use prompt_maker_studio.Library.Searching.{SearchBox, set_search, address_changed, is_last}

-- The user types, or the router drops the oldest query that is under way, or shows it.
pub data Act : Type 0 where
  type_query : Text → Act
  skip echo : Act

pub record Page : Type 0 where
  pub box : SearchBox
  -- What was written and has not been echoed, the oldest first.
  pub under_way : List Text

module _ (view : Text) where
  abbrev pub echo_first : List Text → Page → Page
  echo_first [] w = w
  echo_first (q ∷ qs) w = record { box = address_changed view q w.box; under_way = qs }

  abbrev pub skip_first : List Text → Page → Page
  skip_first [] w = w
  skip_first (q ∷ qs) w = record w { under_way = qs }

  unfoldable pub act : Act → Page → Page
  act (type_query q) w = record { box = set_search q w.box; under_way = w.under_way ++ q ∷ [] }
  act skip w = skip_first w.under_way w
  act echo w = echo_first w.under_way w

  unfoldable pub run : List Act → Page → Page
  run [] w = w
  run (a ∷ acts) w = run acts (act a w)

  -- No text is typed that stands among the queries written already.
  abbrev pub IsFresh : List Act → Page → Type 0
  IsFresh [] w = Unit
  IsFresh (type_query q ∷ acts) w =
      (includes w.box.queries q ≡ false) × IsFresh acts (act (type_query q) w)
  IsFresh (skip ∷ acts) w = IsFresh acts (act skip w)
  IsFresh (echo ∷ acts) w = IsFresh acts (act echo w)

-- The text typed last, or else the one at first.
abbrev pub last_typed : List Act → Text → Text
last_typed [] s = s
last_typed (type_query q ∷ acts) s = last_typed acts q
last_typed (skip ∷ acts) s = last_typed acts s
last_typed (echo ∷ acts) s = last_typed acts s

-- What is under way was written, and only the last of it is the newest query.
abbrev IsLate : List Text → List Text → Type 0
IsLate qs [] = Unit
IsLate qs (x ∷ []) = includes qs x ≡ true
IsLate qs (x ∷ y ∷ xs) = (includes qs x ≡ true) × (is_last qs x ≡ false) × IsLate qs (y ∷ xs)

module _ (view : Text) where
  abbrev IsSettled : Page → Type 0
  IsSettled w = (w.box.written_view ≡ view) × IsLate w.box.queries w.under_way

  -- The page after an echo or a query that was dropped.
  abbrev Keeps : Page → Page → Type 0
  Keeps w w' = (w'.box.search ≡ w.box.search) × IsSettled w'

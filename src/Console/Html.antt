-- ===== src/Console/Html.antt =====
-- What a component renders: a tree of elements whose handlers are messages of the page. An icon is an
-- element of its own, by its name.
use mathlib.Core.Path.{subst}
use apk_cache.Prelude.{◌≡◌, ◌⊎◌, inl, inr, String, Bool, false, ◌||◌, List, [], ◌∷◌, if◌then◌else◌}

pub data Attr (A : Type 0) : Type 0 where
  class_name : String → Attr A
  attr : String → String → Attr A
  checked disabled : Bool → Attr A
  on_click on_submit on_enter : A → Attr A
  on_change : (String → A) → Attr A
  on_check : (Bool → A) → Attr A

mutual
  pub data Html (A : Type 0) : Type 0 where
    txt : String → Html A
    icon : String → Html A
    tag : String → List (Attr A) → Nodes A → Html A

  pub data Nodes (A : Type 0) : Type 0 where
    stop : Nodes A
    node : Html A → Nodes A → Nodes A

module _ {A : Type 0} where
  abbrev pub nodes : List (Html A) → Nodes A
  nodes [] = stop
  nodes (h ∷ hs) = node h (nodes hs)

  -- An element with the children given.
  abbrev pub el : String → List (Attr A) → List (Html A) → Html A
  el name attrs children = tag name attrs (nodes children)

  -- `test ? html : null`
  abbrev pub when : Bool → Html A → List (Html A)
  when b h = if b then h ∷ [] else []

  unfoldable pub is_disabled : List (Attr A) → Bool
  is_disabled [] = false
  is_disabled (disabled b ∷ attrs) = let rest = is_disabled attrs in b || rest
  is_disabled (class_name c ∷ attrs) = is_disabled attrs
  is_disabled (attr k v ∷ attrs) = is_disabled attrs
  is_disabled (checked b ∷ attrs) = is_disabled attrs
  is_disabled (on_click a ∷ attrs) = is_disabled attrs
  is_disabled (on_submit a ∷ attrs) = is_disabled attrs
  is_disabled (on_enter a ∷ attrs) = is_disabled attrs
  is_disabled (on_change f ∷ attrs) = is_disabled attrs
  is_disabled (on_check f ∷ attrs) = is_disabled attrs

  -- A message that an element sends when it is used; one that is disabled sends none.
  abbrev pub AttrSends : Attr A → A → Type 0
  AttrSends (on_click a) m = a ≡ m
  AttrSends (on_submit a) m = a ≡ m
  AttrSends (on_enter a) m = a ≡ m
  AttrSends (on_change f) m = (s : String) × (f s ≡ m)
  AttrSends (on_check f) m = (b : Bool) × (f b ≡ m)
  AttrSends (class_name c) m = ⊥
  AttrSends (attr k v) m = ⊥
  AttrSends (checked b) m = ⊥
  AttrSends (disabled b) m = ⊥

  abbrev pub SomeSends : List (Attr A) → A → Type 0
  SomeSends [] m = ⊥
  SomeSends (a ∷ attrs) m = AttrSends a m ⊎ SomeSends attrs m

abbrev mutual
  pub Sends : {A : Type 0} → Html A → A → Type 0
  Sends (txt t) m = ⊥
  Sends (icon n) m = ⊥
  Sends (tag n attrs kids) m = ((is_disabled attrs ≡ false) × SomeSends attrs m) ⊎ NodesSend kids m

  pub NodesSend : {A : Type 0} → Nodes A → A → Type 0
  NodesSend stop m = ⊥
  NodesSend (node h hs) m = Sends h m ⊎ NodesSend hs m

-- Every message of the handlers satisfies a predicate.
module _ {A : Type 0} (Q : A → Type 0) where
  abbrev pub AttrOnly : Attr A → Type 0
  AttrOnly (on_click a) = Q a
  AttrOnly (on_submit a) = Q a
  AttrOnly (on_enter a) = Q a
  AttrOnly (on_change f) = (s : String) → Q (f s)
  AttrOnly (on_check f) = (b : Bool) → Q (f b)
  AttrOnly (class_name c) = Unit
  AttrOnly (attr k v) = Unit
  AttrOnly (checked b) = Unit
  AttrOnly (disabled b) = Unit

  abbrev pub AttrsOnly : List (Attr A) → Type 0
  AttrsOnly [] = Unit
  AttrsOnly (a ∷ attrs) = AttrOnly a × AttrsOnly attrs

  abbrev mutual
    pub Only : Html A → Type 0
    Only (txt t) = Unit
    Only (icon n) = Unit
    Only (tag n attrs kids) = AttrsOnly attrs × NodesOnly kids

    pub NodesOnly : Nodes A → Type 0
    NodesOnly stop = Unit
    NodesOnly (node h hs) = Only h × NodesOnly hs

  attr-AttrOnly : (a : Attr A) (m : A) → AttrOnly a → AttrSends a m → Q m
  attr-AttrOnly (on_click a) m h s = subst Q s h
  attr-AttrOnly (on_submit a) m h s = subst Q s h
  attr-AttrOnly (on_enter a) m h s = subst Q s h
  attr-AttrOnly (on_change f) m h (t, e) = subst Q e (h t)
  attr-AttrOnly (on_check f) m h (b, e) = subst Q e (h b)
  attr-AttrOnly (class_name c) m h s = absurd s
  attr-AttrOnly (attr k v) m h s = absurd s
  attr-AttrOnly (checked b) m h s = absurd s
  attr-AttrOnly (disabled b) m h s = absurd s

  attrs-AttrsOnly : (attrs : List (Attr A)) (m : A) → AttrsOnly attrs → SomeSends attrs m → Q m
  attrs-AttrsOnly [] m h s = absurd s
  attrs-AttrsOnly (a ∷ attrs) m h (inl s) = attr-AttrOnly a m h.0 s
  attrs-AttrsOnly (a ∷ attrs) m h (inr s) = attrs-AttrsOnly attrs m h.1 s

  mutual
    pub Sends-Only : (h : Html A) (m : A) → Only h → Sends h m → Q m
    Sends-Only (txt t) m o s = absurd s
    Sends-Only (icon n) m o s = absurd s
    Sends-Only (tag n attrs kids) m o (inl (e, s)) = attrs-AttrsOnly attrs m o.0 s
    Sends-Only (tag n attrs kids) m o (inr s) = NodesSend-NodesOnly kids m o.1 s

    pub NodesSend-NodesOnly : (hs : Nodes A) (m : A) → NodesOnly hs → NodesSend hs m → Q m
    NodesSend-NodesOnly stop m o s = absurd s
    NodesSend-NodesOnly (node h hs) m o (inl s) = Sends-Only h m o.0 s
    NodesSend-NodesOnly (node h hs) m o (inr s) = NodesSend-NodesOnly hs m o.1 s

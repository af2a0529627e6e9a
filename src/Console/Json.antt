-- ===== src/Console/Json.antt =====
-- The values that the console sends, and its requests. A path is given by its segments and a query
-- by its parameters, so two requests are equal if they ask the same.
use apk_cache.Prelude.{ℕ, String, Bool, List}

mutual
  pub data Json : Type 0 where
    null : Json
    flag : Bool → Json
    num : ℕ → Json
    text : String → Json
    arr : Items → Json
    obj : Fields → Json

  pub data Items : Type 0 where
    nil : Items
    cons : Json → Items → Items

  pub data Fields : Type 0 where
    end : Fields
    field : String → Json → Fields → Fields

pub data Method : Type 0 where
  get post put delete : Method

pub data Segment : Type 0 where
  word : String → Segment
  id : ℕ → Segment

pub record Request : Type 0 where
  pub method : Method
  pub path : List Segment
  pub query : List (String × Json)
  pub body : Json

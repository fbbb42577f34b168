-- ===== src/Json.antt =====
-- JSON values, as the metadata of an audit entry holds them (`Record<string, unknown>`).
use ikg_studio_model_trainin.Common.{ℕ, Bool, String}

mutual
  pub data Json : Type 0 where
    null : Json
    boolean : Bool → Json
    number : ℕ → Json
    text : String → Json
    array : Items → Json
    object : Fields → Json

  pub data Items : Type 0 where
    nil : Items
    cons : Json → Items → Items

  pub data Fields : Type 0 where
    end : Fields
    field : String → Json → Fields → Fields

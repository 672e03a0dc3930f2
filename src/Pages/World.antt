-- ===== src/Pages/World.antt =====
-- What the handlers work with: the file system, the loaded templates and the database. The rows of the
-- views in image/sql are what the MySQL client gives for a query, try by try.
use simurga.Base.{ℕ, Option, Bytes}
use simurga.Database.{Attempt, Tried, ConnectArgs}
use simurga.Files.{System}
use simurga.Template.Store.{Templates}

-- ModelParameters of src/model.cpp
pub record ModelParameters : Type 0 where
  pub model_id : ℕ
  pub color_name : Bytes

-- ModelView of src/model.cpp; a Nullable is an Option.
pub record ModelView : Type 0 where
  pub model_id : ℕ
  pub color_name : Bytes
  pub color_desc : Bytes
  pub model_title : Bytes
  pub num_images : ℕ
  pub sizes : ℕ
  pub material_desc : Option Bytes
  pub price : ℕ
  pub special_price : Option ℕ
  pub desc : Bytes

-- CollectionView of src/collection.cpp
pub record CollectionView : Type 0 where
  pub model_id : ℕ
  pub color_name : Bytes
  pub title : Bytes
  pub price : ℕ
  pub special_price : Option ℕ

pub record World : Type 0 where
  pub sys : System
  pub templates : Templates
  pub data_dir : Bytes
  -- the tries of a statement, by the text, the parameters and the round of `execute`
  pub model_rows : Bytes → ModelParameters → ℕ → Tried ModelView
  pub collection_rows : Bytes → ℕ → Tried CollectionView
  -- the outcome of connecting again, by the round
  pub client : ℕ → ConnectArgs → Attempt (Unit {0})

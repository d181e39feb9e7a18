-- ===== src/Dynamo.antt =====
-- The interface of the DynamoDB client (`dynamodb.API` of the forge SDK), which internal/db calls.
-- The client and the service behind it are not part of this repository: a record of operations over
-- an abstract state, with the documented behaviour as the laws of Dynamo/Laws.antt.
pub mod Items
pub mod Laws
pub mod Memory
use komodo_accounts_api.Prelude.{String, Option, List, ℕ, Bool}
use komodo_accounts_api.Exec.{Result, Exec}
use Items.{Key, Item, Condition, UpdateRequest}

-- `KeyConditionExpression` with its values: the whole partition, the partition's sort keys with a
-- prefix, and one entry of the index GSI1.
pub data KeyCondition : Type 0 where
  partition : String → KeyCondition
  begins_with : (pk sk_prefix : String) → KeyCondition
  gsi1 : (pk sk : String) → KeyCondition

pub record QueryInput : Type 0 where
  pub key_condition : KeyCondition
  pub limit : Option ℕ
  pub scan_forward : Bool

pub data TransactItem : Type 0 where
  put : Item → Condition → TransactItem
  update : UpdateRequest → TransactItem
  delete : Key → TransactItem

pub record DynamoDb : Type 1 where
  pub State : Type 0
  -- what the table holds
  pub table : State → Key → Option Item
  -- `BuildKey`
  pub build_key : (pk sk : String) → Result Key
  pub get_item : Key → Exec State Item
  pub write_item : Item → Condition → Exec State (Unit {0})
  pub update_item : UpdateRequest → Exec State Item
  pub delete_item : Key → Exec State (Unit {0})
  -- one page, and all pages
  pub query : QueryInput → Exec State (List Item)
  pub query_all : QueryInput → Exec State (List Item)
  pub batch_get : List Key → Exec State (List Item)
  pub transact_write : List TransactItem → Exec State (Unit {0})

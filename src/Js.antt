-- ===== src/Js.antt =====
-- Values of the language as code with `unknown` arguments meets them, hostile objects included: a
-- property whose getter throws, and a revoked proxy. An object's own keys are in their order.
use atra_workunit_os.Prelude.{ℕ, String, Bool, false, List, [], ◌∷◌, ◌==◌, if◌then◌else◌, ◌||◌}

mutual
  pub data Value : Type 0 where
    undefined null revoked : Value
    obj : Fields → Value
    arr : Items → Value
    str : String → Value
    num : ℕ → Value
    bool : Bool → Value

  pub data Fields : Type 0 where
    field : String → Value → Fields → Fields
    throws : String → Fields → Fields
    symbol : Fields → Fields
    end : Fields

  pub data Items : Type 0 where
    cons : Value → Items → Items
    nil : Items

-- What reading one own property gives.
pub data Read : Type 0 where
  absent unreadable : Read
  value : Value → Read

unfoldable pub read_own : String → Fields → Read
read_own k end = absent
read_own k (field j v fs) = if j == k then value v else read_own k fs
read_own k (throws j fs) = if j == k then unreadable else read_own k fs
read_own k (symbol fs) = read_own k fs

-- `list.includes(text)`
unfoldable pub includes : List String → String → Bool
includes [] k = false
includes (x ∷ xs) k = x == k || includes xs k

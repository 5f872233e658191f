-- ===== src/Api/Resources.antt =====
-- RunSpec.ResourceRequests of api/v1alpha1/run_types.go.
use kruntimes.Base.{
  String, string_eq, Bool, true, false, [], ◌∷◌, Option, none, some, is_some, ◌||◌, not,
  if◌then◌else◌,
}
use kruntimes.Base.Int.{pos, ltb_ℤ}
use kruntimes.Base.Maps.{lookup, insert}
use kruntimes.Base.Results.{Result, ok, err, ◌>>=◌}
use kruntimes.Api.Quantity.{QuantityOps, ResourceList}
use kruntimes.Api.Run.{RunSpec, RunResourceRequirements}

-- The name of the resource whose request is no non-negative integer.
pub record InvalidRequest : Type 0 where
  pub resource : String

module _ {Q : Type 0} (k : QuantityOps Q) where
  open k use {sign, as_int64, new_quantity}

  -- The loop over the requests; it keeps the positive ones.
  unfoldable pub collect_requests :
      ResourceList Q → ResourceList Q → Result InvalidRequest (ResourceList Q)
  collect_requests [] requests = ok requests
  collect_requests ((name, quantity) ∷ rest) requests =
      let next =
        collect_requests rest
          (if ltb_ℤ (pos 0) (sign quantity) then insert name quantity requests else requests) in
      if ltb_ℤ (sign quantity) (pos 0) || not (is_some (as_int64 quantity))
      then err (record { resource = name })
      else next

  abbrev declared : Option (RunResourceRequirements Q) → ResourceList Q
  declared none = []
  declared (some r) = r.requests

  abbrev lacks_runs : Option Q → Bool
  lacks_runs none = true
  lacks_runs (some quantity) = if ltb_ℤ (pos 0) (sign quantity) then false else true

  -- Each Run takes at least one slot.
  unfoldable pub with_runs : ResourceList Q → ResourceList Q
  with_runs requests =
      if lacks_runs (lookup "runs" requests)
      then insert "runs" (new_quantity (pos 1)) requests
      else requests

  unfoldable pub resource_requests : RunSpec Q → Result InvalidRequest (ResourceList Q)
  unfolding collect_requests with_runs
  resource_requests s = do
    requests ← collect_requests (declared s.resources) []
    ok (with_runs requests)

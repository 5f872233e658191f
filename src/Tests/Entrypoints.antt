-- ===== src/Tests/Entrypoints.antt =====
-- The theorem on entrypoints at one path, and two that are refused.
use kruntimes.Base.{◌≡◌, refl}
use kruntimes.Base.Text.{join, cut_prefix}
use kruntimes.Base.Results.{ok, err}
use kruntimes.EntrypointPath.{
  split_path, text_of, clean_path, resolve_entrypoint, leaves_workspace, entrypoint_or,
}
use kruntimes.EntrypointPath.Containment.{IsContained, resolve_entrypoint-IsContained}

nested : resolve_entrypoint "./bin/../lib//run.sh" "main.sh" ≡ ok "lib/run.sh"
unfolding resolve_entrypoint clean_path split_path text_of cut_prefix join
nested = refl

escaping : resolve_entrypoint "bin/../../run.sh" "main.sh" ≡ err leaves_workspace
unfolding resolve_entrypoint clean_path split_path text_of cut_prefix join
escaping = refl

rooted : resolve_entrypoint "/bin/run.sh" "main.sh" ≡ err leaves_workspace
unfolding resolve_entrypoint clean_path split_path text_of cut_prefix join
rooted = refl

resolve_entrypoint-IsContained_example :
    IsContained (entrypoint_or "./bin/../lib//run.sh" "main.sh") "lib/run.sh"
resolve_entrypoint-IsContained_example =
    resolve_entrypoint-IsContained "./bin/../lib//run.sh" "main.sh" "lib/run.sh" nested

-- ===== src/Controller/Workspaces/Lifecycle/History.antt =====
-- The history of a workspace: reconciles, each with its own answers of the API, and edits of the rest
-- of the object by others. Only the controller writes the status. One Reconcile may write the status
-- more than once, Lost and then Released for instance; the history has the states after each of its
-- writes, and a Reconcile reads any of them, since the one before may have stopped there.
use mathlib.Core.Path.{subst}
use kruntimes.Base.{◌≡◌, refl, sym, inl, inr, List, [], ◌∷◌, ◌++◌, string_eq, ◌==◌, false}
use kruntimes.Base.Sort.{Member}
use kruntimes.Api.Workspace.{PersistentWorkspace}
use kruntimes.Scheduler.Environment.{found}
use kruntimes.Controller.Workspaces.{
  WorkspaceParts, WorkspaceWorld, WorkspaceWrite, wrote_status, wrote_object, requested_deletion,
}
use kruntimes.Controller.Workspaces.Lifecycle.{reconcile_workspace}
use kruntimes.Controller.Workspaces.Lifecycle.Bindings.{IsKept, IsKept-refl, IsKept-trans}
use kruntimes.Controller.Workspaces.Lifecycle.Kept.{reconcile_workspace-IsKept}

abbrev pub with_status_of : PersistentWorkspace → PersistentWorkspace → PersistentWorkspace
with_status_of w new = record w { status = new.status }

-- The workspace after the writes, in order.
abbrev pub after_writes : PersistentWorkspace → List WorkspaceWrite → PersistentWorkspace
after_writes w [] = w
after_writes w (wrote_status new ∷ later) = after_writes (with_status_of w new) later
after_writes w (_ ∷ later) = after_writes w later

pub data Evolves (Q : Type 0) (parts : WorkspaceParts) (start : PersistentWorkspace)
    : PersistentWorkspace → Type 0 where
  starts : Evolves Q parts start start
  edits :
      {w : PersistentWorkspace} (new : PersistentWorkspace)
      → Evolves Q parts start w
      → new.status ≡ w.status
      → Evolves Q parts start new
  reconciles :
      {w : PersistentWorkspace} (world : WorkspaceWorld Q) (before later : List WorkspaceWrite)
      → Evolves Q parts start w
      → world.workspace ≡ found w
      → (reconcile_workspace parts world).writes ≡ before ++ later
      → Evolves Q parts start (after_writes w before)

still_named :
    (start w : PersistentWorkspace)
    → (start.status.bound_pod == "") ≡ false
    → IsKept start w
    → (w.status.bound_pod == "") ≡ false
still_named start w named h = rw h.same_pod named

with_status_of-IsKept :
    (u w new : PersistentWorkspace) → IsKept u new → IsKept u (with_status_of w new)
with_status_of-IsKept u w new h = record {
  same_pod = h.same_pod;
  same_uid = h.same_uid;
  same_path = h.same_path;
  follows = h.follows;
}

edited-IsKept : (u w new : PersistentWorkspace) → new.status ≡ w.status → IsKept u w → IsKept u new
edited-IsKept u w new e h = record {
  same_pod = rw e h.same_pod;
  same_uid = rw e h.same_uid;
  same_path = rw e h.same_path;
  follows = rw e h.follows;
}

after_writes-IsKept :
    (u w : PersistentWorkspace) (before later : List WorkspaceWrite)
    → IsKept u w
    → ((new : PersistentWorkspace) → Member (wrote_status new) (before ++ later) → IsKept u new)
    → IsKept u (after_writes w before)
after_writes-IsKept u w [] later h each = h
after_writes-IsKept u w (wrote_status new ∷ before) later h each =
    after_writes-IsKept u (with_status_of w new) before later
      (with_status_of-IsKept u w new (each new (inl refl))) (λ n m. each n (inr m))
after_writes-IsKept u w (wrote_object new ∷ before) later h each =
    after_writes-IsKept u w before later h (λ n m. each n (inr m))
after_writes-IsKept u w (requested_deletion ∷ before) later h each =
    after_writes-IsKept u w before later h (λ n m. each n (inr m))

-- For any history that starts where a Reconcile reads a workspace that names a bound Pod, with any
-- answers of the API, any number of the writes of each Reconcile, and any edits of its spec and
-- metadata: the workspace names the same Pod, UID and path for ever, one that is Released stays so,
-- and one that a Reconcile reads as Lost stays Lost. Within one Reconcile that reads it as Bound,
-- the status may be written as Lost and then as Released.
pub Evolves-IsKept :
    {Q : Type 0} {parts : WorkspaceParts} {start w : PersistentWorkspace}
    → (start.status.bound_pod == "") ≡ false
    → Evolves Q parts start w
    → IsKept start w
Evolves-IsKept {start = start} named starts = IsKept-refl start
Evolves-IsKept {start = start} named (edits {w} new r e) =
    edited-IsKept start w new e (Evolves-IsKept named r)
Evolves-IsKept {parts = parts} {start = start} named (reconciles {w} world before later r e split) =
    let kept = Evolves-IsKept named r in
    after_writes-IsKept start w before later kept (λ new m. IsKept-trans start w new kept (
      reconcile_workspace-IsKept parts world w new e (still_named start w named kept)
        (subst (Member (wrote_status new)) (sym split) m)))

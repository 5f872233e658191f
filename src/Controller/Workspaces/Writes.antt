-- ===== src/Controller/Workspaces/Writes.antt =====
-- What holds of each status that a sequence of calls writes.
use kruntimes.Base.{◌≡◌, List, [], ◌∷◌, ◌++◌, All, All-append, inr}
use kruntimes.Base.Sort.{Member}
use kruntimes.Api.Workspace.{PersistentWorkspace}
use kruntimes.Scheduler.Environment.{UpdateAnswer, updated, conflict, update_failed}
use kruntimes.Controller.Workspaces.{
  WorkspaceWrite, wrote_status, wrote_object, requested_deletion, WorkspaceReply, settled,
  look_again_after, gave_up, WorkspaceError, WorkspaceOutcome, one_write, proceed, and_then,
}

abbrev pub OnStatus : (PersistentWorkspace → Type 0) → WorkspaceWrite → Type 0
OnStatus P (wrote_status w) = P w
OnStatus P (wrote_object w) = Unit
OnStatus P requested_deletion = Unit

module _ (P : WorkspaceWrite → Type 0) where
  pub one_write-All :
      (w : WorkspaceWrite) (answer : UpdateAnswer) (e : WorkspaceError)
      → P w
      → All P (one_write w answer e).writes
  one_write-All w updated e h = (h, tt)
  one_write-All w conflict e h = (h, tt)
  one_write-All w update_failed e h = (h, tt)

  proceed-All :
      (ws : List WorkspaceWrite) (reply : WorkspaceReply) (next : WorkspaceOutcome)
      → All P ws
      → All P next.writes
      → All P (proceed ws reply next).writes
  proceed-All ws (gave_up e) next h rest = h
  proceed-All ws settled next h rest = All-append P ws next.writes h rest
  proceed-All ws (look_again_after d) next h rest = All-append P ws next.writes h rest

  pub and_then-All :
      (first next : WorkspaceOutcome)
      → All P first.writes
      → All P next.writes
      → All P (and_then first next).writes
  and_then-All first next = proceed-All first.writes first.reply next

Member-append :
    (w : WorkspaceWrite) (ws more : List WorkspaceWrite) → Member w more → Member w (ws ++ more)
Member-append w [] more m = m
Member-append w (v ∷ ws) more m = inr (Member-append w ws more m)

-- After a first call that succeeded the second one writes.
pub Member-and_then :
    (w : WorkspaceWrite) (first next : WorkspaceOutcome)
    → first.reply ≡ settled
    → Member w next.writes
    → Member w (and_then first next).writes
Member-and_then w first next e m = rw e (Member-append w first.writes next.writes m)

-- ===== src/Overlay/History.antt =====
-- The overlay under any history of calls.
use artifact_fs_extropic.Base.{ℕ, List, [], ◌∷◌, Option, Text, Text_eq}
use artifact_fs_extropic.Model.{BaseNode, RepoConfig}
use artifact_fs_extropic.Platform.{Platform}
use artifact_fs_extropic.Overlay.{Store}
use artifact_fs_extropic.Overlay.Write.{
  remove, create_file, mkdir, write_file, set_mtime, ensure_copy_on_write,
}
use artifact_fs_extropic.Overlay.Rename.{rename}
use artifact_fs_extropic.Overlay.Reconcile.{reconcile}
use artifact_fs_extropic.Overlay.View.{IsValid}
use artifact_fs_extropic.Overlay.Rows.{ValidRows}
use artifact_fs_extropic.Overlay.Valid.{
  remove-Keeps, mkdir-Keeps, create_file-Keeps, ensure_copy_on_write-Keeps, write_file-Keeps,
  set_mtime-Keeps, rename-Keeps, reconcile-Keeps,
}

-- The methods of model.OverlayStore that change the store, with the time of the call where it is read.
pub data Call : Type 0 where
  copies_up : RepoConfig → Text → BaseNode → ℕ → Call
  creates : Text → ℕ → ℕ → Call
  writes : Text → ℕ → Text → ℕ → Call
  removes : Text → ℕ → Call
  renames : Text → Text → ℕ → Call
  makes_dir : Text → ℕ → ℕ → Call
  touches : Text → ℕ → Call
  reconciles : Option (Text → Option BaseNode) → Call

module _ (p : Platform) where
  open p use {Disk}

  -- The store after a call, whether it failed or not.
  pub step : Call → Store Disk → Store Disk
  step (copies_up repo path base now) s = (ensure_copy_on_write p repo path base now s).1
  step (creates path mode now) s = (create_file p path mode now s).1
  step (writes path off data' now) s = (write_file p path off data' now s).1
  step (removes path now) s = (remove p path now s).1
  step (renames old new now) s = (rename p old new now s).1
  step (makes_dir path mode now) s = (mkdir p path mode now s).1
  step (touches path t) s = (set_mtime p path t s).1
  step (reconciles lookup) s = (reconcile p lookup s).1

  pub run : List Call → Store Disk → Store Disk
  run [] s = s
  run (c ∷ cs) s = run cs (step c s)

  step-ValidRows : (c : Call) (s : Store Disk) → ValidRows s.entries → ValidRows (step c s).entries
  unfolding step
  step-ValidRows (copies_up repo path base now) s v =
      ensure_copy_on_write-Keeps p repo path base now s v
  step-ValidRows (creates path mode now) s v = create_file-Keeps p path mode now s v
  step-ValidRows (writes path off data' now) s v = write_file-Keeps p path off data' now s v
  step-ValidRows (removes path now) s v = remove-Keeps p path now s v
  step-ValidRows (renames old new now) s v = rename-Keeps p old new now s v
  step-ValidRows (makes_dir path mode now) s v = mkdir-Keeps p path mode now s v
  step-ValidRows (touches path t) s v = set_mtime-Keeps p path t s v
  step-ValidRows (reconciles lookup) s v = reconcile-Keeps p lookup s v

  run-ValidRows :
      (cs : List Call) (s : Store Disk) → ValidRows s.entries → ValidRows (run cs s).entries
  unfolding run
  run-ValidRows [] s v = v
  run-ValidRows (c ∷ cs) s v = run-ValidRows cs (step c s) (step-ValidRows c s v)

  -- Whatever calls are made on a valid overlay, and whichever of them fail, no path has two
  -- entries and every path is a cleaned one.
  pub run-IsValid : (cs : List Call) (s : Store Disk) → IsValid s → IsValid (run cs s)
  run-IsValid cs s v =
      let (keyed, cleaned) = run-ValidRows cs s (v.keyed, v.cleaned) in
      record { keyed = keyed; cleaned = cleaned }

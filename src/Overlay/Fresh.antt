-- ===== src/Overlay/Fresh.antt =====
-- The rules of Reconcile as its comment in internal/overlay/store.go gives them, against the code.
use artifact_fs_extropic.Base.{
  arith, ◌≡◌, ◌≢◌, ◌↔◌, ◌⊎◌, refl, sym, ◌∙◌, inl, inr, Bool, false, Option, none, some, Text,
  Text_eq, text_eq_iff, if◌then◌else◌, ok,
}
use artifact_fs_extropic.Model.{BaseNode, FileType, FileType_beq_iff, OverlayEntry, OverlayKind}
use artifact_fs_extropic.Platform.{Platform}
use artifact_fs_extropic.Overlay.{Store, get}
use artifact_fs_extropic.Overlay.Reconcile.{is_stale, kind_stale, reconcile}
use artifact_fs_extropic.Overlay.View.{IsValid}
use artifact_fs_extropic.Overlay.Stale.{reconcile-view}

-- An entry that still has a meaning over what the base has at its path.
pub data IsFresh (e : OverlayEntry) : Option BaseNode → Type 0 where
  edited :
      (base : BaseNode)
      → (e.kind ≡ OverlayKind.modify) ⊎ (e.kind ≡ OverlayKind.rename)
      → e.source_oid ≡ base.object_oid
      → IsFresh e (some base)
  created : e.kind ≡ OverlayKind.create → IsFresh e none
  hidden : (base : BaseNode) → e.kind ≡ OverlayKind.delete → IsFresh e (some base)
  new_dir : e.kind ≡ OverlayKind.mkdir → IsFresh e none
  dir_over_file :
      (base : BaseNode)
      → e.kind ≡ OverlayKind.mkdir
      → base.type ≢ FileType.dir
      → IsFresh e (some base)
  linked : (base : Option BaseNode) → e.kind ≡ OverlayKind.symlink → IsFresh e base

IsFresh-kept :
    (e : OverlayEntry) (base : Option BaseNode) → IsFresh e base → kind_stale e.kind e base ≡ false
IsFresh-kept e _ (edited base k o) = ground (arith, text_eq_iff e.source_oid base.object_oid)
IsFresh-kept e _ (created k) = rw k
IsFresh-kept e _ (hidden base k) = rw k
IsFresh-kept e _ (new_dir k) = rw k
IsFresh-kept e _ (dir_over_file base k n) =
    rw k (ground (arith, FileType_beq_iff base.type FileType.dir))
IsFresh-kept e _ (linked base k) = rw k

kept-IsFresh :
    (k : OverlayKind) (e : OverlayEntry) (base : Option BaseNode)
    → e.kind ≡ k
    → kind_stale k e base ≡ false
    → IsFresh e base
kept-IsFresh OverlayKind.create e none k h = created k
kept-IsFresh OverlayKind.create e (some base) k h = cc
kept-IsFresh OverlayKind.delete e none k h = cc
kept-IsFresh OverlayKind.delete e (some base) k h = hidden base k
kept-IsFresh OverlayKind.mkdir e none k h = new_dir k
kept-IsFresh OverlayKind.mkdir e (some base) k h =
    dir_over_file base k (λ d. ground (arith, FileType_beq_iff base.type FileType.dir))
kept-IsFresh OverlayKind.modify e none k h = cc
kept-IsFresh OverlayKind.modify e (some base) k h =
    edited base (inl k) (ground (arith, text_eq_iff e.source_oid base.object_oid))
kept-IsFresh OverlayKind.rename e none k h = cc
kept-IsFresh OverlayKind.rename e (some base) k h =
    edited base (inr k) (ground (arith, text_eq_iff e.source_oid base.object_oid))
kept-IsFresh OverlayKind.symlink e base k h = linked base k

is_stale_iff :
    (l : Text → Option BaseNode) (e : OverlayEntry) → (is_stale l e ≡ false) ↔ IsFresh e (l e.path)
unfolding is_stale
is_stale_iff l e = (λ h. kept-IsFresh e.kind e (l e.path) refl h, λ f. IsFresh-kept e (l e.path) f)

kept_iff : {A : Type 0} (b : Bool) (x : A) → ((if b then none else some x) ≡ some x) ↔ (b ≡ false)
kept_iff b x = ground arith

module _ (p : Platform) where
  open p use {Disk}

  -- A reconciliation of a valid overlay that ends well keeps an entry exactly if it still has a
  -- meaning over the new base: an edit or a rename of the object that the base still has at the
  -- path, a created file where the base has nothing, a whiteout of something, a directory where
  -- the base has none, or a symbolic link.
  pub reconcile-IsFresh :
      (l : Text → Option BaseNode) (s s' : Store Disk) (q : Text) (e : OverlayEntry)
      → IsValid s
      → get s q ≡ some e
      → reconcile p (some l) s ≡ (ok tt, s')
      → (get s' q ≡ some e) ↔ IsFresh e (l e.path)
  reconcile-IsFresh l s s' q e v g h =
      let view : get s' q ≡ (if is_stale l e then none else some e) =
        reconcile-view p l s s' q v h ∙ rw g in
      let (to, from) = kept_iff (is_stale l e) e in
      let (to', from') = is_stale_iff l e in
      (λ k. to' (to (sym view ∙ k)), λ f. view ∙ from (from' f))

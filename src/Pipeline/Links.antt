-- ===== src/Pipeline/Links.antt =====
-- What unlinking does to the other pads, in the handlers of src/backend/icecast_ogg.rs.
use p2pradio.Prelude.{◌≡◌, ◌≢◌, refl, true, false, none, inl, inr, Option-cases}
use p2pradio.Pipeline.{Linking, unlink_old}

module _ (L : Linking) where
  open L use {Pad, Graph, peer}

  pub differ : (src sink : Pad) → L.is_src src ≡ true → L.is_src sink ≡ false → sink ≢ src
  differ src sink s t e = cc

  pub unlink_old-none : (sink : Pad) (g : Graph) → peer sink (unlink_old L sink g) ≡ none
  unfolding unlink_old
  unlink_old-none sink g = elim (Option-cases (peer sink g)) [
    | inl free ↦ rw (L.unlinked_peer sink g free) free
    | inr (old, taken) ↦ rw (L.linked_peer sink old g taken, taken) (L.unlink_peer old sink g taken)
  ]

  pub unlink_old-other :
      (sink p : Pad) (g : Graph)
      → L.is_src sink ≡ false
      → L.is_src p ≡ false
      → p ≢ sink
      → peer p (unlink_old L sink g) ≡ peer p g
  unfolding unlink_old
  unlink_old-other sink p g t s other = elim (Option-cases (peer sink g)) [
    | inl free ↦ rw (L.unlinked_peer sink g free) refl
    | inr (old, taken) ↦
        rw (L.linked_peer sink old g taken, taken)
          (L.unlink_other old sink p g (differ old p (L.peer_src sink old g t taken) s) other)
  ]

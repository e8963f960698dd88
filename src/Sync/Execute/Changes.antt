-- ===== src/Sync/Execute/Changes.antt =====
-- New messages and changed ones (src/account/sync/mod.rs).
use wallet_rs.Prelude.{
  ◌≡◌, refl, true, false, List, [], ◌∷◌, arith, any, filter, ◌==◌, All, All-filter, All-mono,
}
use wallet_rs.Message.Types.{Message}
use wallet_rs.Sync.Node.{Known}
use wallet_rs.Sync.Execute.{is_new, is_changed, confirmation_changed}

changed-known :
    (known : Known) (m : Message) → is_changed known m ≡ true → any (λ k. k.0 == m.id) known ≡ true
changed-known [] m h = h
changed-known (k ∷ rest) m h = ground (arith, changed-known rest m)

-- No message is reported both as new and as one whose confirmation state changed.
pub confirmation_changed-All-known :
    (known : Known) (parsed : List Message)
    → All (λ m. is_new known m ≡ false) (confirmation_changed known parsed)
unfolding confirmation_changed
confirmation_changed-All-known known parsed =
    All-mono (λ m. is_changed known m ≡ true) (λ m. is_new known m ≡ false)
      (filter (is_changed known) parsed) (λ m h. let k = changed-known known m h in rw k refl)
      (All-filter (is_changed known) parsed)

-- ===== src/Win32RelayClient/Life.antt =====
-- The life of a client, from the initialization through any calls to the cleanup, and what is left
-- in the system then.
use printdrop.Prelude.{ℕ, ◌≡◌, subst, Option, some, List}
use printdrop.Frame.{FrameHeader}
use printdrop.RelayMessage.{RelayMessageView}
use printdrop.Win32RelayClient.{ClientResult, CurlApi, RelayClient, client_init}
use printdrop.Win32RelayClient.Traffic.{client_connect, client_send_frame, client_cleanup}
use printdrop.Win32RelayClient.Receive.{client_receive_frame}
use printdrop.Resources.{Resource, Account, Holds}
use printdrop.Win32RelayClient.Release.{
  LiveLaws, owned, IsBalanced, cleanup_balance, client_init-IsBalanced,
}
use printdrop.Win32RelayClient.Keeps.{TrafficLaws, Ends, connect-IsBalanced, client_send_frame-Ends}
use printdrop.Win32RelayClient.KeepsReceiving.{EndsSeen, client_receive_frame-EndsSeen}

module _ {S : Type 0} (curl : CurlApi S) (live : S → Account) where
  -- The clients and systems that calls on a client reach from its initialization, where `base` of
  -- others were there before.
  pub data Life (base : Account) : RelayClient → S → Type 0 where
    made :
        (client : RelayClient) (url secret : Option (List ℕ)) (s : S)
        → ((r : Resource) → owned client r ≡ 0)
        → Holds live s base
        → Life base
            (client_init curl client url secret s).1
            (client_init curl client url secret s).2
    connects :
        (client : RelayClient) (s : S)
        → Life base client s
        → Life base (client_connect curl client s).1 (client_connect curl client s).2
    sends :
        (fuel : ℕ) (h : Option FrameHeader) (p : Option (List ℕ)) (n : ℕ)
        (client client' : RelayClient) (s s' : S) (result : ClientResult)
        → Life base client s
        → client_send_frame curl fuel client h p n s ≡ some (result, client', s')
        → Life base client' s'
    receives :
        (fuel : ℕ) (view view' : RelayMessageView) (client client' : RelayClient) (s s' : S)
        (result : ClientResult)
        → Life base client s
        → client_receive_frame curl fuel client view s ≡ some (result, client', view', s')
        → Life base client' s'

  Life-IsBalanced :
      (base : Account)
      → LiveLaws curl live
      → TrafficLaws curl live
      → (client : RelayClient) (s : S) → Life base client s
      → IsBalanced curl live base client s
  unfolding Ends EndsSeen
  Life-IsBalanced base held laws _ _ (made client url secret s e b) =
      client_init-IsBalanced curl live held base client url secret s b e
  Life-IsBalanced base held laws _ _ (connects client s l) =
      connect-IsBalanced curl live base laws client s (Life-IsBalanced base held laws client s l)
  Life-IsBalanced base held laws _ _ (sends fuel h p n client client' s s' result l e) =
      subst (Ends curl live base) e (
        client_send_frame-Ends curl live base laws fuel client h p n s
          (Life-IsBalanced base held laws client s l))
  Life-IsBalanced base held laws _ _ (receives fuel view view' client client' s s' result l e) =
      subst (EndsSeen curl live base) e (
        client_receive_frame-EndsSeen curl live base laws fuel client view s
          (Life-IsBalanced base held laws client s l))

  -- Where the system keeps account of what is there, and a call that frees may only be made for what
  -- is there, and frees that and nothing else: after any calls of connect, send and receive on an
  -- initialized client, whatever they answered and whichever call of the initialization failed, the
  -- cleanup leaves in the system exactly the buffers, handles and header lists that were there before
  -- the initialization.
  pub client_cleanup-Life :
      (base : Account) (client : RelayClient) (s : S)
      → LiveLaws curl live
      → TrafficLaws curl live
      → Life base client s
      → Holds live (client_cleanup curl client s).1 base
  client_cleanup-Life base client s held laws l =
      cleanup_balance curl live held base client s (Life-IsBalanced base held laws client s l)

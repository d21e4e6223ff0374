-- ===== src/Server/Dispatch/Frame.antt =====
-- What queueing deliveries leaves as it was: `enqueue_subscriber_deliveries` of
-- bin/status-server/src/incident_writer.rs.
use statuspage.Base.{ℕ, suc, ◌+◌, ◌≡◌, refl, List, [], ◌∷◌, Bool-cases, inl, inr, length}
use statuspage.Domain.Time.{Uuid}
use statuspage.Domain.Status.{DeliveryReason}
use statuspage.Domain.Incident.{Incident}
use statuspage.Domain.Page.{Subscriber, is_verified}
use statuspage.Storage.Memory.{MemoryStorage}
use statuspage.Storage.Deliveries.{enqueue_delivery}
use statuspage.Server.Dispatch.{
  Surroundings, enqueue_for, enqueue_pages, enqueue_subscriber_deliveries, list_subscribers,
  pages_with_target,
}

module _ (env : Surroundings) (i : Incident) (reason : DeliveryReason) where
  enqueue_for-incidents :
      (page_id : Uuid) (drawn : ℕ) (ss : List Subscriber) (m : MemoryStorage)
      → (enqueue_for env i reason page_id drawn ss m).incidents ≡ m.incidents
  unfolding enqueue_for enqueue_delivery
  enqueue_for-incidents page_id drawn [] m = refl
  enqueue_for-incidents page_id drawn (s ∷ ss) m = elim (Bool-cases (is_verified s)) [
    | inl y ↦ rw (enqueue_for-incidents page_id (suc drawn) ss, y)
    | inr n ↦ rw (enqueue_for-incidents page_id (suc drawn) ss, n)
  ]

  enqueue_pages-incidents :
      (drawn : ℕ) (ps : List Uuid) (m : MemoryStorage)
      → (enqueue_pages env i reason drawn ps m).incidents ≡ m.incidents
  unfolding enqueue_pages
  enqueue_pages-incidents drawn [] m = refl
  enqueue_pages-incidents drawn (p ∷ ps) m = rw (
    enqueue_pages-incidents (length (list_subscribers p m) + drawn) ps
        (enqueue_for env i reason p drawn (list_subscribers p m) m),
    enqueue_for-incidents p drawn (list_subscribers p m) m,
  )

  pub enqueue-incidents :
      (m : MemoryStorage) → (enqueue_subscriber_deliveries env i reason m).incidents ≡ m.incidents
  unfolding enqueue_subscriber_deliveries
  enqueue-incidents m = enqueue_pages-incidents 0 (pages_with_target i.target_id m) m

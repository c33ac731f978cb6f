-- ===== src/Runner/Clear.antt =====
-- A cycle that gives the all-clear has read the pages of the listing up to one that ends them.
use telecloud_subscription_r.Platform.{Platform}

-- ===== src/Tests/Rendering.antt =====
-- The templates of a message, at a sample.
use telecloud_subscription_r.Base.{◌≡◌, refl, true, false, ◌||◌, return, str_eq}
use telecloud_subscription_r.Notify.Rendering.{Templates, pick, searched, IsFirst, pick-IsFirst}
use telecloud_subscription_r.Tests.Samples.{ascii}

-- the default templates, in English, and a subject for Slack in French
abbrev templates : Templates
templates = record {
  exists = λ name.
      str_eq name "en/default.subject.j2"
      || str_eq name "en/default.body.j2"
      || str_eq name "fr/slack.subject.j2";
  fill = λ name c. return c.status;
  display = λ at. "soon";
}

french_subject :
    pick ascii templates "en" "fr" "slack" "subject" true ≡ return "fr/slack.subject.j2"
unfolding pick
french_subject = refl

english_body : pick ascii templates "en" "fr" "slack" "body" false ≡ return "en/default.body.j2"
unfolding pick
english_body = refl

pick-IsFirst_example :
    IsFirst ascii templates "en"
      (searched ascii templates "en" "fr" "slack" "body" true)
      (pick ascii templates "en" "fr" "slack" "body" true)
pick-IsFirst_example = pick-IsFirst ascii templates "en" "fr" "slack" "body" true refl

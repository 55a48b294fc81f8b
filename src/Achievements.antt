-- ===== src/Achievements.antt =====
-- The first achievement list of app/services/gamification.py, and `AchievementEarned` of
-- app/domain.py.
pub mod Award
mod Tests
use chat_pulse.Prelude.{
  ℕ, String, Bool, true, false, ◌||◌, List, [], ◌∷◌, ltb, if◌then◌else◌, str_eq,
}

-- The keys of `stats` that the list names.
pub data Metric : Type 0 where
  xp_total level messages_count reactions_received replies_count photo_count : Metric
  voice_count current_streak : Metric

pub record AchievementDefinition : Type 0 where
  pub code : String
  pub title : String
  pub description : String
  pub field : Metric
  pub threshold : ℕ
  pub important : Bool

abbrev pub achievements : List AchievementDefinition
achievements =
    record {
      code = "first_steps";
      title = "Перші кроки";
      description = "Набрано 10 XP у групі";
      field = xp_total;
      threshold = 10;
      important = false;
    }
    ∷ record {
      code = "level_5";
      title = "Бронзовий старт";
      description = "Досягнуто 5 рівня у групі";
      field = level;
      threshold = 5;
      important = true;
    }
    ∷ record {
      code = "messages_100";
      title = "Перша сотня";
      description = "Надіслано 100 повідомлень";
      field = messages_count;
      threshold = 100;
      important = false;
    }
    ∷ record {
      code = "messages_1000";
      title = "Машина спілкування";
      description = "Надіслано 1 000 повідомлень";
      field = messages_count;
      threshold = 1000;
      important = true;
    }
    ∷ record {
      code = "reactions_100";
      title = "Улюбленець групи";
      description = "Отримано 100 реакцій";
      field = reactions_received;
      threshold = 100;
      important = true;
    }
    ∷ record {
      code = "replies_100";
      title = "Майстер діалогу";
      description = "Надіслано 100 відповідей";
      field = replies_count;
      threshold = 100;
      important = false;
    }
    ∷ record {
      code = "photos_50";
      title = "Папараці";
      description = "Надіслано 50 фото";
      field = photo_count;
      threshold = 50;
      important = false;
    }
    ∷ record {
      code = "voices_25";
      title = "Голос чату";
      description = "Надіслано 25 голосових";
      field = voice_count;
      threshold = 25;
      important = false;
    }
    ∷ record {
      code = "streak_7";
      title = "Тиждень у ритмі";
      description = "Серія активності 7 днів";
      field = current_streak;
      threshold = 7;
      important = true;
    }
    ∷ record {
      code = "streak_30";
      title = "Місяць без пауз";
      description = "Серія активності 30 днів";
      field = current_streak;
      threshold = 30;
      important = true;
    }
    ∷ []

-- `code in existing_codes`
unfoldable pub contains : String → List String → Bool
contains code [] = false
contains code (c ∷ codes) = str_eq code c || contains code codes

-- The values of `scope`.
pub data AchievementScope : Type 0 where
  group global : AchievementScope

pub record AchievementEarned : Type 0 where
  pub code : String
  pub title : String
  pub description : String
  pub important : Bool
  pub reward_xp : ℕ
  pub scope : AchievementScope

-- The reward and the scope are the defaults.
abbrev earned_of : AchievementDefinition → AchievementEarned
earned_of d = record {
  code = d.code;
  title = d.title;
  description = d.description;
  important = d.important;
  reward_xp = 0;
  scope = group;
}

-- The loop of `evaluate_achievements` over a list of definitions.
evaluate_from : (Metric → ℕ) → List String → List AchievementDefinition → List AchievementEarned
evaluate_from stats existing_codes [] = []
evaluate_from stats existing_codes (d ∷ definitions) =
    let rest = evaluate_from stats existing_codes definitions in
    if contains d.code existing_codes
    then rest
    else if ltb (stats d.field) d.threshold
    then rest
    else earned_of d ∷ rest

pub evaluate_achievements : (Metric → ℕ) → List String → List AchievementEarned
unfolding evaluate_from
evaluate_achievements stats existing_codes = evaluate_from stats existing_codes achievements

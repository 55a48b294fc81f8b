-- ===== src/Catalog/Singles.antt =====
-- The ranking and the secret achievements of app/achievements/catalog.py, and the whole list.
use chat_pulse.Prelude.{true, false, none, some, List, [], ◌∷◌, ◌++◌}
use chat_pulse.Achievements.{group}
use chat_pulse.Catalog.{
  gte, lte, rare, epic, legendary, secret, rarity_theme, Metric, AchievementDefinition,
  message_created, media_created, reaction_received, streak_updated, ranking_calculated,
}
use chat_pulse.Catalog.Chains.{
  message_chain, reply_chain, reaction_chain, photo_chain, voice_chain, group_xp_chain,
  streak_chain, level_chain, media_chain, global_xp_chain, groups_chain, active_days_chain,
  weekly_xp_chain,
}

abbrev pub ranking_achievements : List AchievementDefinition
ranking_achievements =
    record {
      code = "rank_top_10";
      title = "У десятці";
      description = "Увійти до топ-10 групового рейтингу";
      category = "ranking";
      rarity = rare;
      scope = group;
      icon = "list-ordered";
      visual_theme = rarity_theme rare;
      hidden = false;
      chain_key = some "ranking";
      chain_stage = 1;
      chain_total = 3;
      trigger = ranking_calculated;
      metric = Metric.rank;
      threshold = 10;
      comparator = lte;
      important = false;
      reward_xp = 20;
      version = 2;
      season_key = none;
    }
    ∷ record {
      code = "rank_top_3";
      title = "На п’єдесталі";
      description = "Увійти до топ-3 групового рейтингу";
      category = "ranking";
      rarity = epic;
      scope = group;
      icon = "medal";
      visual_theme = rarity_theme epic;
      hidden = false;
      chain_key = some "ranking";
      chain_stage = 2;
      chain_total = 3;
      trigger = ranking_calculated;
      metric = Metric.rank;
      threshold = 3;
      comparator = lte;
      important = true;
      reward_xp = 40;
      version = 2;
      season_key = none;
    }
    ∷ record {
      code = "rank_1";
      title = "Номер один";
      description = "Посісти перше місце у груповому рейтингу";
      category = "ranking";
      rarity = legendary;
      scope = group;
      icon = "crown";
      visual_theme = rarity_theme legendary;
      hidden = false;
      chain_key = some "ranking";
      chain_stage = 3;
      chain_total = 3;
      trigger = ranking_calculated;
      metric = Metric.rank;
      threshold = 1;
      comparator = lte;
      important = true;
      reward_xp = 75;
      version = 2;
      season_key = none;
    }
    ∷ []

abbrev pub secret_achievements : List AchievementDefinition
secret_achievements =
    record {
      code = "secret_night_owl";
      title = "Нічна сова";
      description = "Надіслати 100 повідомлень у нічний час";
      category = "secret";
      rarity = secret;
      scope = group;
      icon = "moon-star";
      visual_theme = rarity_theme secret;
      hidden = true;
      chain_key = none;
      chain_stage = 0;
      chain_total = 0;
      trigger = message_created;
      metric = Metric.night_messages_count;
      threshold = 100;
      comparator = gte;
      important = true;
      reward_xp = 35;
      version = 2;
      season_key = none;
    }
    ∷ record {
      code = "secret_early_bird";
      title = "Перший промінь";
      description = "Надіслати 100 ранкових повідомлень";
      category = "secret";
      rarity = secret;
      scope = group;
      icon = "sunrise";
      visual_theme = rarity_theme secret;
      hidden = true;
      chain_key = none;
      chain_stage = 0;
      chain_total = 0;
      trigger = message_created;
      metric = Metric.morning_messages_count;
      threshold = 100;
      comparator = gte;
      important = true;
      reward_xp = 35;
      version = 2;
      season_key = none;
    }
    ∷ record {
      code = "secret_voice_marathon";
      title = "Голосовий марафон";
      description = "Надіслати 333 голосових повідомлення";
      category = "secret";
      rarity = secret;
      scope = group;
      icon = "audio-lines";
      visual_theme = rarity_theme secret;
      hidden = true;
      chain_key = none;
      chain_stage = 0;
      chain_total = 0;
      trigger = media_created;
      metric = Metric.voice_count;
      threshold = 333;
      comparator = gte;
      important = true;
      reward_xp = 50;
      version = 2;
      season_key = none;
    }
    ∷ record {
      code = "secret_photo_signal";
      title = "Сигнал із 404 кадрів";
      description = "Надіслати 404 фото";
      category = "secret";
      rarity = secret;
      scope = group;
      icon = "scan-search";
      visual_theme = rarity_theme secret;
      hidden = true;
      chain_key = none;
      chain_stage = 0;
      chain_total = 0;
      trigger = media_created;
      metric = Metric.photo_count;
      threshold = 404;
      comparator = gte;
      important = true;
      reward_xp = 50;
      version = 2;
      season_key = none;
    }
    ∷ record {
      code = "secret_reaction_storm";
      title = "Емоційний шторм";
      description = "Отримати 777 реакцій";
      category = "secret";
      rarity = secret;
      scope = group;
      icon = "cloud-lightning";
      visual_theme = rarity_theme secret;
      hidden = true;
      chain_key = none;
      chain_stage = 0;
      chain_total = 0;
      trigger = reaction_received;
      metric = Metric.reactions_received;
      threshold = 777;
      comparator = gte;
      important = true;
      reward_xp = 60;
      version = 2;
      season_key = none;
    }
    ∷ record {
      code = "secret_perfect_rhythm";
      title = "Ідеальний ритм";
      description = "Підтримувати серію активності 111 днів";
      category = "secret";
      rarity = secret;
      scope = group;
      icon = "orbit";
      visual_theme = rarity_theme secret;
      hidden = true;
      chain_key = none;
      chain_stage = 0;
      chain_total = 0;
      trigger = streak_updated;
      metric = Metric.current_streak;
      threshold = 111;
      comparator = gte;
      important = true;
      reward_xp = 70;
      version = 2;
      season_key = none;
    }
    ∷ []

-- `ACHIEVEMENTS`
abbrev pub catalog : List AchievementDefinition
catalog =
    message_chain ++ reply_chain ++ reaction_chain ++ photo_chain ++ voice_chain ++ group_xp_chain
    ++ streak_chain ++ level_chain ++ media_chain ++ global_xp_chain ++ groups_chain
    ++ active_days_chain ++ weekly_xp_chain ++ ranking_achievements ++ secret_achievements

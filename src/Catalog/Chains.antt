-- ===== src/Catalog/Chains.antt =====
-- The chains of app/achievements/catalog.py.
use chat_pulse.Prelude.{List, [], ◌∷◌}
use chat_pulse.Achievements.{group, global}
use chat_pulse.Catalog.{
  Metric, AchievementDefinition, stage, chain, message_created, reply_created, media_created,
  reaction_received, streak_updated, level_changed, weekly_report_created,
}

abbrev pub message_chain : List AchievementDefinition
message_chain =
    chain
      (record {
        key = "messages";
        category = "activity";
        trigger = message_created;
        metric = Metric.messages_count;
        scope = group;
        icon = "message-circle";
      })
      (stage "messages_10" "Перше слово" "Надіслано 10 повідомлень" 10
        ∷ stage "messages_100" "Перша сотня" "Надіслано 100 повідомлень" 100
        ∷ stage "messages_500" "Розговорився" "Надіслано 500 повідомлень" 500
        ∷ stage "messages_1000" "Машина спілкування" "Надіслано 1 000 повідомлень" 1000
        ∷ stage "messages_2500" "Голос групи" "Надіслано 2 500 повідомлень" 2500
        ∷ stage "messages_5000" "Невтомний співрозмовник" "Надіслано 5 000 повідомлень" 5000
        ∷ stage "messages_10000" "Легенда чату" "Надіслано 10 000 повідомлень" 10000
        ∷ stage "messages_25000" "Серце спільноти" "Надіслано 25 000 повідомлень" 25000
        ∷ [])

abbrev pub reply_chain : List AchievementDefinition
reply_chain =
    chain
      (record {
        key = "replies";
        category = "dialogue";
        trigger = reply_created;
        metric = Metric.replies_count;
        scope = group;
        icon = "reply";
      })
      (stage "replies_10" "У діалозі" "Надіслано 10 відповідей" 10
        ∷ stage "replies_50" "Підтримав розмову" "Надіслано 50 відповідей" 50
        ∷ stage "replies_100" "Майстер діалогу" "Надіслано 100 відповідей" 100
        ∷ stage "replies_250" "Завжди на зв’язку" "Надіслано 250 відповідей" 250
        ∷ stage "replies_500" "Діалоговий двигун" "Надіслано 500 відповідей" 500
        ∷ stage "replies_1000" "Той, хто відповідає" "Надіслано 1 000 відповідей" 1000
        ∷ stage "replies_2500" "Архітектор розмов" "Надіслано 2 500 відповідей" 2500
        ∷ [])

abbrev pub reaction_chain : List AchievementDefinition
reaction_chain =
    chain
      (record {
        key = "reactions";
        category = "reactions";
        trigger = reaction_received;
        metric = Metric.reactions_received;
        scope = group;
        icon = "heart";
      })
      (stage "reactions_1" "Перша реакція" "Отримано першу реакцію" 1
        ∷ stage "reactions_10" "Помітили" "Отримано 10 реакцій" 10
        ∷ stage "reactions_50" "Подобається людям" "Отримано 50 реакцій" 50
        ∷ stage "reactions_100" "Улюбленець групи" "Отримано 100 реакцій" 100
        ∷ stage "reactions_250" "Магніт реакцій" "Отримано 250 реакцій" 250
        ∷ stage "reactions_500" "Емоційний центр" "Отримано 500 реакцій" 500
        ∷ stage "reactions_1000" "Тисяча емоцій" "Отримано 1 000 реакцій" 1000
        ∷ stage "reactions_2000" "Ікона групи" "Отримано 2 000 реакцій" 2000
        ∷ [])

abbrev pub photo_chain : List AchievementDefinition
photo_chain =
    chain
      (record {
        key = "photos";
        category = "media";
        trigger = media_created;
        metric = Metric.photo_count;
        scope = group;
        icon = "image";
      })
      (stage "photos_1" "Перший кадр" "Надіслано перше фото" 1
        ∷ stage "photos_10" "Фотоальбом" "Надіслано 10 фото" 10
        ∷ stage "photos_50" "Папараці" "Надіслано 50 фото" 50
        ∷ stage "photos_100" "Хронікер групи" "Надіслано 100 фото" 100
        ∷ stage "photos_250" "Візуальна історія" "Надіслано 250 фото" 250
        ∷ stage "photos_500" "Фотолегенда" "Надіслано 500 фото" 500
        ∷ stage "photos_1000" "Тисяча моментів" "Надіслано 1 000 фото" 1000
        ∷ [])

abbrev pub voice_chain : List AchievementDefinition
voice_chain =
    chain
      (record {
        key = "voices";
        category = "media";
        trigger = media_created;
        metric = Metric.voice_count;
        scope = group;
        icon = "mic";
      })
      (stage "voices_1" "Перший голос" "Надіслано перше голосове" 1
        ∷ stage "voices_10" "Говорить ChatPulse" "Надіслано 10 голосових" 10
        ∷ stage "voices_25" "Голос чату" "Надіслано 25 голосових" 25
        ∷ stage "voices_50" "Ефір триває" "Надіслано 50 голосових" 50
        ∷ stage "voices_100" "Радіоведучий" "Надіслано 100 голосових" 100
        ∷ stage "voices_250" "Подкастер групи" "Надіслано 250 голосових" 250
        ∷ stage "voices_500" "Легендарний голос" "Надіслано 500 голосових" 500
        ∷ [])

abbrev pub group_xp_chain : List AchievementDefinition
group_xp_chain =
    chain
      (record {
        key = "group_xp";
        category = "activity";
        trigger = message_created;
        metric = Metric.xp_total;
        scope = group;
        icon = "zap";
      })
      (stage "first_steps" "Перші кроки" "Набрано 10 XP у групі" 10
        ∷ stage "xp_100" "Пульс запущено" "Набрано 100 XP у групі" 100
        ∷ stage "xp_500" "Стабільний ритм" "Набрано 500 XP у групі" 500
        ∷ stage "xp_1000" "Тисяча енергії" "Набрано 1 000 XP у групі" 1000
        ∷ stage "xp_5000" "Висока напруга" "Набрано 5 000 XP у групі" 5000
        ∷ stage "xp_10000" "Енергетичне ядро" "Набрано 10 000 XP у групі" 10000
        ∷ stage "xp_25000" "Невгасимий пульс" "Набрано 25 000 XP у групі" 25000
        ∷ stage "xp_50000" "Абсолютний резонанс" "Набрано 50 000 XP у групі" 50000
        ∷ [])

abbrev pub streak_chain : List AchievementDefinition
streak_chain =
    chain
      (record {
        key = "streak";
        category = "streak";
        trigger = streak_updated;
        metric = Metric.current_streak;
        scope = group;
        icon = "flame";
      })
      (stage "streak_3" "Розігрів" "Серія активності 3 дні" 3
        ∷ stage "streak_7" "Тиждень у ритмі" "Серія активності 7 днів" 7
        ∷ stage "streak_14" "Два тижні разом" "Серія активності 14 днів" 14
        ∷ stage "streak_30" "Місяць без пауз" "Серія активності 30 днів" 30
        ∷ stage "streak_60" "Залізна звичка" "Серія активності 60 днів" 60
        ∷ stage "streak_100" "Сто днів пульсу" "Серія активності 100 днів" 100
        ∷ stage "streak_180" "Пів року в ритмі" "Серія активності 180 днів" 180
        ∷ stage "streak_365" "Рік без тиші" "Серія активності 365 днів" 365
        ∷ [])

abbrev pub level_chain : List AchievementDefinition
level_chain =
    chain
      (record {
        key = "levels";
        category = "levels";
        trigger = level_changed;
        metric = Metric.level;
        scope = group;
        icon = "trophy";
      })
      (stage "level_5" "Бронзовий старт" "Досягнуто 5 рівня у групі" 5
        ∷ stage "level_10" "Срібний ритм" "Досягнуто 10 рівня у групі" 10
        ∷ stage "level_20" "Золота хвиля" "Досягнуто 20 рівня у групі" 20
        ∷ stage "level_35" "Діамантовий пульс" "Досягнуто 35 рівня у групі" 35
        ∷ stage "level_50" "Майстер ChatPulse" "Досягнуто 50 рівня у групі" 50
        ∷ [])

abbrev pub media_chain : List AchievementDefinition
media_chain =
    chain
      (record {
        key = "media_total";
        category = "media";
        trigger = media_created;
        metric = Metric.media_count;
        scope = group;
        icon = "gallery-horizontal";
      })
      (stage "media_10" "Медіастарт" "Надіслано 10 медіаповідомлень" 10
        ∷ stage "media_50" "Стрічка оживає" "Надіслано 50 медіаповідомлень" 50
        ∷ stage "media_100" "Медіамейкер" "Надіслано 100 медіаповідомлень" 100
        ∷ stage "media_500" "Контент-машина" "Надіслано 500 медіаповідомлень" 500
        ∷ stage "media_1000" "Медіаархів" "Надіслано 1 000 медіаповідомлень" 1000
        ∷ [])

abbrev pub global_xp_chain : List AchievementDefinition
global_xp_chain =
    chain
      (record {
        key = "global_xp";
        category = "global";
        trigger = level_changed;
        metric = Metric.global_xp_total;
        scope = global;
        icon = "globe-2";
      })
      (stage "global_xp_1000" "Глобальний старт" "Набрано 1 000 XP у ChatPulse" 1000
        ∷ stage "global_xp_5000" "Помітний у мережі" "Набрано 5 000 XP у ChatPulse" 5000
        ∷ stage "global_xp_10000" "Глобальний пульс" "Набрано 10 000 XP у ChatPulse" 10000
        ∷ stage "global_xp_25000" "Міжгрупова легенда" "Набрано 25 000 XP у ChatPulse" 25000
        ∷ stage "global_xp_100000" "Серце ChatPulse" "Набрано 100 000 XP у ChatPulse" 100000
        ∷ [])

abbrev pub groups_chain : List AchievementDefinition
groups_chain =
    chain
      (record {
        key = "groups";
        category = "global";
        trigger = weekly_report_created;
        metric = Metric.groups_count;
        scope = global;
        icon = "users-round";
      })
      (stage "groups_2" "Між двома світами" "Активність у 2 групах" 2
        ∷ stage "groups_3" "Соціальний трикутник" "Активність у 3 групах" 3
        ∷ stage "groups_5" "Мережевий учасник" "Активність у 5 групах" 5
        ∷ stage "groups_10" "Всюди свій" "Активність у 10 групах" 10
        ∷ [])

abbrev pub active_days_chain : List AchievementDefinition
active_days_chain =
    chain
      (record {
        key = "active_days";
        category = "streak";
        trigger = weekly_report_created;
        metric = Metric.active_days_total;
        scope = global;
        icon = "calendar-check-2";
      })
      (stage "active_days_3" "Три активні дні" "Активність у 3 різні дні" 3
        ∷ stage "active_days_7" "Повний тиждень" "Активність у 7 різних днів" 7
        ∷ stage "active_days_30" "Місяць присутності" "Активність у 30 різних днів" 30
        ∷ stage "active_days_90" "Сезон разом" "Активність у 90 різних днів" 90
        ∷ stage "active_days_180" "Пів року присутності" "Активність у 180 різних днів" 180
        ∷ [])

abbrev pub weekly_xp_chain : List AchievementDefinition
weekly_xp_chain =
    chain
      (record {
        key = "weekly_xp";
        category = "activity";
        trigger = weekly_report_created;
        metric = Metric.xp_7d;
        scope = group;
        icon = "calendar-days";
      })
      (stage "weekly_xp_100" "Активний тиждень" "Набрано 100 XP за 7 днів" 100
        ∷ stage "weekly_xp_500" "Гаряча сімка" "Набрано 500 XP за 7 днів" 500
        ∷ stage "weekly_xp_1000" "Тижневий рекорд" "Набрано 1 000 XP за 7 днів" 1000
        ∷ [])

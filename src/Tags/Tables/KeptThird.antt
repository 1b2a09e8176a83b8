-- ===== src/Tags/Tables/KeptThird.antt =====
-- The third part of mapAndKeep, in tags_manager/tags_mapping.go.
use ytsync.Base.{String, Dict, [], ◌∷◌}

abbrev pub kept_third : Dict String
kept_third =
    ("rainbow", "nature")
    ∷ ("water", "nature")
    ∷ ("animals", "nature")
    ∷ ("floral", "nature")
    ∷ ("gardening", "nature")
    ∷ ("garden", "nature")
    ∷ ("world", "nature")
    ∷ ("dog", "nature")
    ∷ ("travel", "nature")
    ∷ ("rv", "nature")
    ∷ ("survival", "nature")
    ∷ ("outdoor", "nature")
    ∷ ("full time rving", "nature")
    ∷ ("rv park", "nature")
    ∷ ("travel trailer", "nature")
    ∷ ("environment", "nature")
    ∷ ("news", "news")
    ∷ ("democrat", "news")
    ∷ ("liberal", "news")
    ∷ ("progressive", "news")
    ∷ ("government", "news")
    ∷ ("republican", "news")
    ∷ ("conservative", "news")
    ∷ ("commentary", "news")
    ∷ ("political", "news")
    ∷ ("cnn", "news")
    ∷ ("cbs", "news")
    ∷ ("msnbc", "news")
    ∷ ("fox news", "news")
    ∷ ("fox", "news")
    ∷ ("nbc", "news")
    ∷ ("politics", "news")
    ∷ ("news & politics", "news")
    ∷ ("senate", "news")
    ∷ ("congress", "news")
    ∷ ("house of representatives", "news")
    ∷ ("video news", "news")
    ∷ ("animated news", "news")
    ∷ ("como", "news")
    ∷ ("putin", "news")
    ∷ ("news radio", "news")
    ∷ ("hillary clinton", "news")
    ∷ ("progressive talk", "news")
    ∷ ("trump", "news")
    ∷ ("barack obama", "news")
    ∷ ("donald trump", "news")
    ∷ ("newscast", "news")
    ∷ ("racism", "news")
    ∷ ("war", "news")
    ∷ ("horror", "pop culture")
    ∷ ("zombies", "pop culture")
    ∷ ("next media animation", "pop culture")
    ∷ ("adventure", "pop culture")
    ∷ ("epic", "pop culture")
    ∷ ("reviews", "pop culture")
    ∷ ("movie", "pop culture")
    ∷ ("indie", "pop culture")
    ∷ ("pro", "pop culture")
    ∷ ("animation", "pop culture")
    ∷ ("zombie", "pop culture")
    ∷ ("star", "pop culture")
    ∷ ("film", "pop culture")
    ∷ ("magic", "pop culture")
    ∷ ("ninja", "pop culture")
    ∷ ("top 10", "pop culture")
    ∷ ("wwe", "pop culture")
    ∷ ("loot", "pop culture")
    ∷ ("marvel", "pop culture")
    ∷ ("manga", "pop culture")
    ∷ ("puzzle", "pop culture")
    ∷ ("hero", "pop culture")
    ∷ ("retro", "pop culture")
    ∷ ("disney", "pop culture")
    ∷ ("dc", "pop culture")
    ∷ ("next animation studio", "pop culture")
    ∷ ("cosplay", "pop culture")
    ∷ ("dragoncon", "pop culture")
    ∷ ("comiccon", "pop culture")
    ∷ ("stories", "pop culture")
    ∷ ("unboxing", "pop culture")
    ∷ ("fail", "pop culture")
    ∷ ("dragon", "pop culture")
    ∷ ("meme", "pop culture")
    ∷ ("family friendly", "pop culture")
    ∷ ("random", "pop culture")
    ∷ ("vlogging", "pop culture")
    ∷ ("react", "pop culture")
    ∷ ("trailer", "pop culture")
    ∷ ("reaction", "pop culture")
    ∷ ("toys", "pop culture")
    ∷ ("reacts", "pop culture")
    ∷ ("cute", "pop culture")
    ∷ ("weed", "pop culture")
    ∷ ("drunkfx", "pop culture")
    ∷ ("happy", "pop culture")
    ∷ ("anime", "pop culture")
    ∷ ("family", "pop culture")
    ∷ ("memes", "pop culture")
    ∷ ("wtf", "pop culture")
    ∷ ("racing", "sports")
    ∷ ("sport", "sports")
    ∷ ("training", "sports")
    ∷ ("football", "sports")
    ∷ ("computer", "technology")
    ∷ ("online", "technology")
    ∷ ("mods", "technology")
    ∷ ("tech", "technology")
    ∷ ("linux", "technology")
    ∷ ("sony", "technology")
    ∷ ("iphone", "technology")
    ∷ ("pc", "technology")
    ∷ ("ram", "technology")
    ∷ ("samsung", "technology")
    ∷ ("software", "technology")
    ∷ ("windows", "technology")
    ∷ ("programming", "technology")
    ∷ ("simulation", "technology")
    ∷ ("facebook", "technology")
    ∷ ("desktop", "technology")
    ∷ ("install", "technology")
    ∷ ("microsoft", "technology")
    ∷ ("twitter", "technology")
    ∷ ("android", "technology")
    ∷ ("mobile", "technology")
    ∷ ("apple", "technology")
    ∷ ("ios", "technology")
    ∷ ("server", "technology")
    ∷ ("nvidia", "technology")
    ∷ ("open source", "technology")
    ∷ ("apps", "technology")
    ∷ ("laptop", "technology")
    ∷ ("podcast", "technology")
    ∷ ("hack", "technology")
    ∷ ("guns", "weapons")
    ∷ ("shooting", "weapons")
    ∷ ("trophy", "weapons")
    ∷ ("combat", "weapons")
    ∷ ("fire", "weapons")
    ∷ ("gun", "weapons")
    ∷ ("tactical", "weapons")
    ∷ ("firearms", "weapons")
    ∷ ("rocket", "weapons")
    ∷ ("sniper", "weapons")
    ∷ ("knife", "weapons")
    ∷ ("trap", "weapons")
    ∷ ("assault", "weapons")
    ∷ []

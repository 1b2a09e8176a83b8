-- ===== src/Tags/Tables/KeptFirst.antt =====
-- The first part of mapAndKeep, in tags_manager/tags_mapping.go.
use ytsync.Base.{String, Dict, [], ◌∷◌}

abbrev pub kept_first : Dict String
kept_first =
    ("dance", "art")
    ∷ ("design", "art")
    ∷ ("fashion", "art")
    ∷ ("creative hairstyles", "art")
    ∷ ("colorful hair", "art")
    ∷ ("cool long hair", "art")
    ∷ ("cartoon", "art")
    ∷ ("comic", "art")
    ∷ ("comics", "art")
    ∷ ("beauty", "art")
    ∷ ("car", "automotive")
    ∷ ("cars", "automotive")
    ∷ ("4x4", "automotive")
    ∷ ("automobile", "automotive")
    ∷ ("autos", "automotive")
    ∷ ("carros", "automotive")
    ∷ ("suv", "automotive")
    ∷ ("truck", "automotive")
    ∷ ("garage", "automotive")
    ∷ ("auto", "automotive")
    ∷ ("crash", "automotive")
    ∷ ("driving", "automotive")
    ∷ ("race", "automotive")
    ∷ ("bmw", "automotive")
    ∷ ("vehicle", "automotive")
    ∷ ("benz", "automotive")
    ∷ ("auto show (event)", "automotive")
    ∷ ("engine", "automotive")
    ∷ ("mercedes", "automotive")
    ∷ ("motorcycle", "automotive")
    ∷ ("porsche", "automotive")
    ∷ ("bus", "automotive")
    ∷ ("jeep", "automotive")
    ∷ ("secular talk", "beliefs")
    ∷ ("atheist", "beliefs")
    ∷ ("atheism", "beliefs")
    ∷ ("agnostic", "beliefs")
    ∷ ("freedom", "beliefs")
    ∷ ("secular", "beliefs")
    ∷ ("religion", "beliefs")
    ∷ ("liberty", "beliefs")
    ∷ ("christian", "beliefs")
    ∷ ("god", "beliefs")
    ∷ ("libertarian", "beliefs")
    ∷ ("guru", "beliefs")
    ∷ ("muslim", "beliefs")
    ∷ ("voluntarism", "beliefs")
    ∷ ("yogi", "beliefs")
    ∷ ("mystic", "beliefs")
    ∷ ("bible", "beliefs")
    ∷ ("jesus", "beliefs")
    ∷ ("anarchism", "beliefs")
    ∷ ("christianity", "beliefs")
    ∷ ("anarchy", "beliefs")
    ∷ ("voluntaryist", "beliefs")
    ∷ ("activism", "beliefs")
    ∷ ("hindu", "beliefs")
    ∷ ("peace", "beliefs")
    ∷ ("love", "beliefs")
    ∷ ("death", "beliefs")
    ∷ ("christmas", "beliefs")
    ∷ ("lord", "beliefs")
    ∷ ("bitcoin", "blockchain")
    ∷ ("cryptocurrency", "blockchain")
    ∷ ("crypto", "blockchain")
    ∷ ("ethereum", "blockchain")
    ∷ ("btc", "blockchain")
    ∷ ("airdrop", "blockchain")
    ∷ ("litecoin", "blockchain")
    ∷ ("eth", "blockchain")
    ∷ ("mining", "blockchain")
    ∷ ("bitcoin news", "blockchain")
    ∷ ("ico", "blockchain")
    ∷ ("crypto news", "blockchain")
    ∷ ("token", "blockchain")
    ∷ ("token free", "blockchain")
    ∷ ("bitcoin price", "blockchain")
    ∷ ("altcoins", "blockchain")
    ∷ ("cryptocurrency news", "blockchain")
    ∷ ("altcoin", "blockchain")
    ∷ ("coin", "blockchain")
    ∷ ("ripple", "blockchain")
    ∷ ("free bitcoin", "blockchain")
    ∷ ("ltc", "blockchain")
    ∷ ("dash", "blockchain")
    ∷ ("eos", "blockchain")
    ∷ ("steemit", "blockchain")
    ∷ ("coinbase", "blockchain")
    ∷ ("cryptocurrencies", "blockchain")
    ∷ ("money", "economics")
    ∷ ("economy", "economics")
    ∷ ("gold", "economics")
    ∷ ("federal reserve", "economics")
    ∷ ("market", "economics")
    ∷ ("investing", "economics")
    ∷ ("dollar", "economics")
    ∷ ("monetary reform", "economics")
    ∷ ("economic", "economics")
    ∷ ("recession", "economics")
    ∷ ("trading", "economics")
    ∷ ("finance", "economics")
    ∷ ("currency", "economics")
    ∷ ("business", "economics")
    ∷ ("health", "food")
    ∷ ("vegan", "food")
    ∷ ("fruits", "food")
    ∷ ("vegán", "food")
    ∷ ("food holidays", "food")
    ∷ ("fun", "funny")
    ∷ ("funny", "funny")
    ∷ ("hilarious", "funny")
    ∷ ("lol", "funny")
    ∷ ("humor", "funny")
    ∷ ("funny moments", "funny")
    ∷ ("comedy", "funny")
    ∷ ("parody", "funny")
    ∷ ("funny video", "funny")
    ∷ ("silly", "funny")
    ∷ ("humour", "funny")
    ∷ ("satire", "funny")
    ∷ ("walkthrough", "gaming")
    ∷ ("#ps4live", "gaming")
    ∷ ("twitch", "gaming")
    ∷ ("#ps4share", "gaming")
    ∷ ("gaming", "gaming")
    ∷ ("video game", "gaming")
    ∷ ("playstation", "gaming")
    ∷ ("xbox one", "gaming")
    ∷ ("video games", "gaming")
    ∷ ("lets", "gaming")
    ∷ ("nintendo", "gaming")
    ∷ ("fps", "gaming")
    ∷ ("video game (industry)", "gaming")
    ∷ ("multiplayer", "gaming")
    ∷ ("fortnite", "gaming")
    ∷ ("dota 2", "gaming")
    ∷ ("xbox 360", "gaming")
    ∷ ("sony computer entertainment", "gaming")
    ∷ ("pc games", "gaming")
    ∷ ("call of duty", "gaming")
    ∷ ("pokemon", "gaming")
    ∷ ("league", "gaming")
    ∷ ("let's play", "gaming")
    ∷ ("let's", "gaming")
    ∷ ("league of legends", "gaming")
    ∷ ("league of legends (video game)", "gaming")
    ∷ ("cod", "gaming")
    ∷ []

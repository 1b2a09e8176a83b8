-- ===== src/Tags/Tables/KeptSecond.antt =====
-- The second part of mapAndKeep, in tags_manager/tags_mapping.go.
use ytsync.Base.{String, Dict, [], ◌∷◌}

abbrev pub kept_second : Dict String
kept_second =
    ("pubg", "gaming")
    ∷ ("xbox", "gaming")
    ∷ ("pvp", "gaming")
    ∷ ("videogame", "gaming")
    ∷ ("dota", "gaming")
    ∷ ("games", "gaming")
    ∷ ("let's play fr", "gaming")
    ∷ ("mario", "gaming")
    ∷ ("pc game", "gaming")
    ∷ ("ps4", "gaming")
    ∷ ("let", "gaming")
    ∷ ("fallout 4", "gaming")
    ∷ ("shooter game (media genre)", "gaming")
    ∷ ("playthrough", "gaming")
    ∷ ("gamer", "gaming")
    ∷ ("wii", "gaming")
    ∷ ("playing", "gaming")
    ∷ ("computer game games", "gaming")
    ∷ ("gameplay", "gaming")
    ∷ ("arcade", "gaming")
    ∷ ("video game culture", "gaming")
    ∷ ("xbox 360 (video game platform)", "gaming")
    ∷ ("rpg", "gaming")
    ∷ ("game", "gaming")
    ∷ ("gta", "gaming")
    ∷ ("let’s play", "gaming")
    ∷ ("minecraft", "gaming")
    ∷ ("skyrim", "gaming")
    ∷ ("action-adventure game (media genre)", "gaming")
    ∷ ("sony interactive entertainment", "gaming")
    ∷ ("dlc", "gaming")
    ∷ ("xbox360", "gaming")
    ∷ ("zelda", "gaming")
    ∷ ("steam", "gaming")
    ∷ ("capcom", "gaming")
    ∷ ("fortnite battle royale", "gaming")
    ∷ ("singleplayer", "gaming")
    ∷ ("pacman", "gaming")
    ∷ ("gta 5", "gaming")
    ∷ ("grand theft auto v", "gaming")
    ∷ ("valve", "gaming")
    ∷ ("massively multiplayer online role-playing game (video game genre)", "gaming")
    ∷ ("#gaming", "gaming")
    ∷ ("halo", "gaming")
    ∷ ("computer games", "gaming")
    ∷ ("nintendo switch", "gaming")
    ∷ ("3d games", "gaming")
    ∷ ("ps2", "gaming")
    ∷ ("role-playing video game (media genre)", "gaming")
    ∷ ("supercell", "gaming")
    ∷ ("dota2", "gaming")
    ∷ ("sims", "gaming")
    ∷ ("pc gaming", "gaming")
    ∷ ("playstation 4", "gaming")
    ∷ ("battle royale", "gaming")
    ∷ ("rpg games", "gaming")
    ∷ ("sims 4", "gaming")
    ∷ ("roblox", "gaming")
    ∷ ("mw3", "gaming")
    ∷ ("far cry 5", "gaming")
    ∷ ("squad gameplay", "gaming")
    ∷ ("tf2", "gaming")
    ∷ ("ps3", "gaming")
    ∷ ("resident evil", "gaming")
    ∷ ("indie game", "gaming")
    ∷ ("overwatch", "gaming")
    ∷ ("brawl", "gaming")
    ∷ ("call of duty®: black ops iii", "gaming")
    ∷ ("console", "gaming")
    ∷ ("mugen", "gaming")
    ∷ ("play", "gaming")
    ∷ ("mass effect", "gaming")
    ∷ ("ubisoft", "gaming")
    ∷ ("minecraft: playstation®4 edition", "gaming")
    ∷ ("rts", "gaming")
    ∷ ("mmorpg", "gaming")
    ∷ ("first person shooter", "gaming")
    ∷ ("action role-playing game (video game genre)", "gaming")
    ∷ ("role-playing game (game genre)", "gaming")
    ∷ ("sonic", "gaming")
    ∷ ("videogames", "gaming")
    ∷ ("level", "gaming")
    ∷ ("sims 3", "gaming")
    ∷ ("esports", "gaming")
    ∷ ("minecraft (video game)", "gaming")
    ∷ ("simulator", "gaming")
    ∷ ("horrible gamers", "gaming")
    ∷ ("moba", "gaming")
    ∷ ("the game", "gaming")
    ∷ ("link", "gaming")
    ∷ ("game reviews", "gaming")
    ∷ ("sims 5", "gaming")
    ∷ ("snk", "gaming")
    ∷ ("online games", "gaming")
    ∷ ("squad game", "gaming")
    ∷ ("switch", "gaming")
    ∷ ("lets play", "gaming")
    ∷ ("portal", "gaming")
    ∷ ("boss", "gaming")
    ∷ ("mod", "gaming")
    ∷ ("strategy", "gaming")
    ∷ ("stream", "gaming")
    ∷ ("galaxy", "gaming")
    ∷ ("tutorial", "learning")
    ∷ ("how to", "learning")
    ∷ ("educational", "learning")
    ∷ ("how", "learning")
    ∷ ("salman khan", "learning")
    ∷ ("education", "learning")
    ∷ ("help", "learning")
    ∷ ("lessons", "learning")
    ∷ ("online learning", "learning")
    ∷ ("diy", "learning")
    ∷ ("school", "learning")
    ∷ ("how-to", "learning")
    ∷ ("howto", "learning")
    ∷ ("advice", "learning")
    ∷ ("history", "learning")
    ∷ ("inspirational", "learning")
    ∷ ("drum and bass", "music")
    ∷ ("bass", "music")
    ∷ ("dubstep", "music")
    ∷ ("song", "music")
    ∷ ("rap", "music")
    ∷ ("remix", "music")
    ∷ ("drum", "music")
    ∷ ("house", "music")
    ∷ ("drum bass", "music")
    ∷ ("darkstep", "music")
    ∷ ("guitar", "music")
    ∷ ("drumstep", "music")
    ∷ ("techstep", "music")
    ∷ ("metal", "music")
    ∷ ("dj", "music")
    ∷ ("rock", "music")
    ∷ ("new music", "music")
    ∷ ("hip hop", "music")
    ∷ ("cover", "music")
    ∷ ("instrumental", "music")
    ∷ ("electronic", "music")
    ∷ ("alternative", "music")
    ∷ ("space", "nature")
    ∷ ("plants", "nature")
    ∷ ("trees", "nature")
    ∷ ("eggs", "nature")
    ∷ ("flowers", "nature")
    ∷ ("beach", "nature")
    ∷ []

-- ===== src/Tags/Tables/Skipped.antt =====
-- The tags that SanitizeTags leaves out, in tags_manager/tags_mapping.go.
use ytsync.Base.{String, List, [], ◌∷◌, ◌++◌}

abbrev skipped_first : List String
skipped_first =
    "#hangoutsonair" ∷ "#hoa" ∷ "1080p" ∷ "2" ∷ "2012" ∷ "2013" ∷ "2014" ∷ "2015" ∷ "2016" ∷ "2017"
    ∷ "2018" ∷ "2019" ∷ "360" ∷ "3d" ∷ "60fps" ∷ "720p" ∷ "achievement" ∷ "action" ∷ "adam"
    ∷ "addon" ∷ "adityanath" ∷ "africa" ∷ "african american" ∷ "akshay kumar" ∷ "alien" ∷ "all"
    ∷ "alpha" ∷ "amazing" ∷ "america" ∷ "amerika" ∷ "anal" ∷ "and" ∷ "asia" ∷ "ass" ∷ "atlanta"
    ∷ "atmospheric" ∷ "attack" ∷ "aughad" ∷ "auto imagen" ∷ "aventure" ∷ "awesome" ∷ "baba"
    ∷ "babas" ∷ "bakri" ∷ "bandar" ∷ "base" ∷ "battle" ∷ "battlefield" ∷ "beard" ∷ "best" ∷ "beta"
    ∷ "betv" ∷ "bhagwa" ∷ "bharat" ∷ "bhawreshwara" ∷ "bhoj" ∷ "big boobs" ∷ "big dick"
    ∷ "bill still" ∷ "black" ∷ "blackpeace72" ∷ "blog" ∷ "blowjob" ∷ "blue" ∷ "bob lennon" ∷ "bob"
    ∷ "bollywood news" ∷ "bollywood tashan" ∷ "bollywood" ∷ "boobs" ∷ "bounty" ∷ "build" ∷ "call"
    ∷ "camera" ∷ "campaign" ∷ "canada" ∷ "challenge" ∷ "challenges" ∷ "champion" ∷ "channel"
    ∷ "chiara ferragni" ∷ "chickens" ∷ "china" ∷ "city" ∷ "clan" ∷ "clans" ∷ "clash of clans"
    ∷ "clash royale" ∷ "clash" ∷ "classic" ∷ "colorful" ∷ "commentary" ∷ "compilation"
    ∷ "convention" ∷ "cool" ∷ "coplanet" ∷ "cow" ∷ "craft" ∷ "crazy" ∷ "creampie" ∷ "creative beard"
    ∷ "csgo" ∷ "cumshot" ∷ "custom" ∷ "cyber locks" ∷ "daily celebration" ∷ "daily holidays"
    ∷ "dark" ∷ "dave pacman" ∷ "dave" ∷ "david di franco" ∷ "david packman" ∷ "david pacman"
    ∷ "david pakman show" ∷ "david pakman" ∷ "david" ∷ "davidpakman.com" ∷ "de" ∷ "dead" ∷ "dean"
    ∷ "death noise" ∷ "death voice" ∷ "deep" ∷ "defense" ∷ "demo" ∷ []

abbrev skipped_second : List String
skipped_second =
    "depression" ∷ "deutsch" ∷ "dfx" ∷ "dharm" ∷ "difranco" ∷ "direct" ∷ "dnb portal" ∷ "dnb"
    ∷ "dnbportal" ∷ "download" ∷ "drive" ∷ "easy" ∷ "eatmydiction1" ∷ "eeuu" ∷ "empire" ∷ "ending"
    ∷ "energy" ∷ "english" ∷ "entertainment" ∷ "episode" ∷ "erik" ∷ "europe" ∷ "fails" ∷ "fanta"
    ∷ "fantabobgames" ∷ "farm" ∷ "farming" ∷ "fast" ∷ "festival" ∷ "fight" ∷ "fighter" ∷ "fighting"
    ∷ "fights" ∷ "fireworks" ∷ "first" ∷ "fist" ∷ "florida" ∷ "footage" ∷ "for" ∷ "foto" ∷ "fr"
    ∷ "français" ∷ "free" ∷ "friends" ∷ "fuck" ∷ "full hd" ∷ "full" ∷ "fun" ∷ "futuristic" ∷ "gaay"
    ∷ "gameplay fr" ∷ "gamerworf" ∷ "gamingoncaffeine" ∷ "garena" ∷ "gay" ∷ "george senda"
    ∷ "german" ∷ "get" ∷ "gift" ∷ "girl" ∷ "girls" ∷ "giveaway" ∷ "glitch" ∷ "good" ∷ "google"
    ∷ "gopro" ∷ "gorthemoviegod" ∷ "gps" ∷ "great" ∷ "green" ∷ "gt" ∷ "guide" ∷ "guy" ∷ "handjob"
    ∷ "hangouts on air" ∷ "hard fucking" ∷ "hcg" ∷ "hd" ∷ "hdtv" ∷ "hentai" ∷ "heroes of newerth"
    ∷ "heroes" ∷ "high" ∷ "highlights" ∷ "holiday everyday" ∷ "hot" ∷ "house flipper"
    ∷ "house party" ∷ "houseparty" ∷ "hungarian vlog" ∷ "imagen" ∷ "imovie" ∷ "in" ∷ "inc" ∷ "india"
    ∷ "indonesia" ∷ "industry (organization sector)" ∷ "influencer" ∷ "injured" ∷ "instagram"
    ∷ "interior" ∷ "interview" ∷ "intro" ∷ "is" ∷ "it" ∷ "ita" ∷ "jaanwar" ∷ "japan" ∷ "jay's"
    ∷ "jeux vidéo" ∷ "jeux" ∷ "jew" ∷ "jnrsnr" ∷ "jnrsnrgaming" ∷ "joe" ∷ "john sonmez" ∷ "johnsp69"
    ∷ "jump" ∷ "junior senior gaming" ∷ "junior senior" ∷ "kag3 entertainment" ∷ "kag3" ∷ "karmakut"
    ∷ "katrina kaif" ∷ "kevin" ∷ []

abbrev skipped_third : List String
skipped_third =
    "kids" ∷ "king" ∷ "kokesh" ∷ "kristomaster4" ∷ "kutta" ∷ "la" ∷ "lance scurvin" ∷ "lancescurv"
    ∷ "latest bollywood news" ∷ "launch" ∷ "legends" ∷ "lennon" ∷ "liberal news" ∷ "life is strange"
    ∷ "life" ∷ "like" ∷ "liquid" ∷ "live stream" ∷ "live" ∷ "livestream" ∷ "london" ∷ "lp"
    ∷ "magyar vlog" ∷ "magyar vlogger" ∷ "make" ∷ "man" ∷ "map" ∷ "martinez ca" ∷ "maskedmage"
    ∷ "mature" ∷ "michigan" ∷ "mine" ∷ "minimal" ∷ "mission" ∷ "mmr" ∷ "mobile" ∷ "mode" ∷ "modi"
    ∷ "moments" ∷ "monster" ∷ "montage" ∷ "moon" ∷ "mortal" ∷ "multicolored" ∷ "music" ∷ "my"
    ∷ "narendra" ∷ "navidad" ∷ "neurofunk" ∷ "new" ∷ "nickatnyte" ∷ "nidge" ∷ "night" ∷ "nma"
    ∷ "no commentary" ∷ "no" ∷ "noise" ∷ "north" ∷ "nsfw" ∷ "obiettivo" ∷ "of" ∷ "official" ∷ "old"
    ∷ "on" ∷ "one" ∷ "opening" ∷ "ops" ∷ "orange" ∷ "outrageous" ∷ "overview" ∷ "packman" ∷ "pakman"
    ∷ "part 1" ∷ "part" ∷ "party" ∷ "paul" ∷ "ped" ∷ "pewdiepie" ∷ "pig" ∷ "pittsburgh pa" ∷ "plus"
    ∷ "podcastradio" ∷ "police" ∷ "porn" ∷ "porno" ∷ "power" ∷ "pradesh" ∷ "prakriti" ∷ "premiere"
    ∷ "preview" ∷ "price" ∷ "productions" ∷ "progressive news" ∷ "progressive podcast" ∷ "pussy"
    ∷ "quality" ∷ "radio" ∷ "raebareli" ∷ "rage" ∷ "raid" ∷ "rants" ∷ "react" ∷ "reaction" ∷ "real"
    ∷ "red" ∷ "relationships" ∷ "release" ∷ "replay" ∷ "replica" ∷ "review" ∷ "road" ∷ "russia"
    ∷ "sadhguru" ∷ "sadhu" ∷ "samaj" ∷ "sant" ∷ "santa" ∷ "scary" ∷ "scene" ∷ "scoope" ∷ "scurv"
    ∷ "scurvin" ∷ "segui" ∷ "series" ∷ "sex" ∷ []

abbrev skipped_fourth : List String
skipped_fourth =
    "sexy" ∷ "shahrukh khan" ∷ "sharefactory™" ∷ "shield" ∷ "shooter" ∷ "show" ∷ "shyam" ∷ "sikh"
    ∷ "silver" ∷ "simple programmer" ∷ "simpleprogrammer.com" ∷ "slime" ∷ "solo"
    ∷ "sonny daniel vlogs" ∷ "sonny daniel" ∷ "sonnydaniel" ∷ "source" ∷ "speed" ∷ "spreaker"
    ∷ "squad ops" ∷ "squad" ∷ "sri" ∷ "states" ∷ "story" ∷ "street" ∷ "suar" ∷ "super" ∷ "support"
    ∷ "szekely" ∷ "szekelyvegan" ∷ "székely vegán" ∷ "székelyvegán" ∷ "taiwanese animation"
    ∷ "taiwanese animators" ∷ "talk radio" ∷ "talk" ∷ "tanyázás" ∷ "tdps" ∷ "team" ∷ "television"
    ∷ "terror" ∷ "test" ∷ "texas" ∷ "thailand" ∷ "the brotherhood of gaming"
    ∷ "the david pakman show" ∷ "the guy from pittsburgh" ∷ "the kag3 gaming" ∷ "the kag3"
    ∷ "the lancescurv show" ∷ "the" ∷ "thecreativeone" ∷ "thefantasio974" ∷ "time" ∷ "tips" ∷ "to"
    ∷ "tom" ∷ "tomo news" ∷ "tomonews" ∷ "tona" ∷ "top" ∷ "total" ∷ "totka" ∷ "trevor" ∷ "trick"
    ∷ "tricks" ∷ "trofeo" ∷ "trolling" ∷ "true" ∷ "truetotalempireinc" ∷ "turbo" ∷ "tv"
    ∷ "uct-wqktykk1_70u4bb4k4lq" ∷ "uk" ∷ "ultimate" ∷ "uniqornaments" ∷ "unique" ∷ "united"
    ∷ "until dawn" ∷ "up" ∷ "update" ∷ "us" ∷ "usa" ∷ "uttar" ∷ "vaanar" ∷ "vagina" ∷ "video"
    ∷ "videos" ∷ "vlog" ∷ "vlogger" ∷ "vlogs" ∷ "voice over" ∷ "voice" ∷ "vs" ∷ "vulcanhdgaming"
    ∷ "waale" ∷ "white" ∷ "willie pelissier" ∷ "willie" ∷ "win" ∷ "with" ∷ "women" ∷ "wordofgod"
    ∷ "wounded" ∷ "wow" ∷ "x320" ∷ "xxx" ∷ "you" ∷ "youtube capture" ∷ "youtube editor" ∷ "youtube"
    ∷ "youtuber" ∷ "ytquality=high" ∷ "{5859dfec-026f-46ba-bea0-02bf43aa1a6f}" ∷ "игра"
    ∷ "игры для девочек" ∷ "игры для мальчиков" ∷ "игры" ∷ "летсплей" ∷ "прохождение игры"
    ∷ "прохождение" ∷ "рпг" ∷ "เกม" ∷ []

unfoldable pub tags_to_skip : List String
tags_to_skip = skipped_first ++ skipped_second ++ skipped_third ++ skipped_fourth

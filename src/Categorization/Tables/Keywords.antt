-- ===== src/Categorization/Tables/Keywords.antt =====
-- categorization/logic.py: the keywords of each category, in the order in which they are tried.
use Prim.Native.String.{String}
use mathlib.Core.List.{List, [], ◌∷◌}

unfoldable pub category_keywords : List (String × List String)
category_keywords =
    (
      "Medical Products",
      "readers" ∷ "reading glasses" ∷ "glasses" ∷ "cetaphil" ∷ "bandage" ∷ "bandages" ∷ "first aid"
          ∷ "pain relief" ∷ "ibuprofen" ∷ "acetaminophen" ∷ "tylenol" ∷ "advil" ∷ "allergy" ∷ "cold"
          ∷ "flu" ∷ "cough" ∷ [],
    )
    ∷ (
      "Health & Fitness",
      "protein powder" ∷ "protein powders" ∷ "electrolyte" ∷ "electrolytes" ∷ "electrolyte mix"
          ∷ "electrolyte mixes" ∷ "vitamin" ∷ "vitamins" ∷ "omega" ∷ "creatine" ∷ "supplement"
          ∷ "supplements" ∷ "workout supplement" ∷ "workout supplements" ∷ "gummies"
          ∷ "multivitamin" ∷ "protein shake" ∷ "protein shakes" ∷ "shake" ∷ "powder" ∷ "collagen"
          ∷ "magnesium" ∷ "wakewater" ∷ "built puff" ∷ "quest" ∷ "fairlife" ∷ "premier protein"
          ∷ [],
    )
    ∷ (
      "Clothing",
      "shirt" ∷ "pant" ∷ "pants" ∷ "jeans" ∷ "jacket" ∷ "coat" ∷ "hoodie" ∷ "sock" ∷ "socks"
          ∷ "underwear" ∷ "brief" ∷ "boxer" ∷ "bra" ∷ "shoe" ∷ "shoes" ∷ "boot" ∷ "boots"
          ∷ "slipper" ∷ "hat" ∷ "glove" ∷ "gloves" ∷ "sweater" ∷ "legging" ∷ "leggings" ∷ "short"
          ∷ "shorts" ∷ "dress" ∷ "pajama" ∷ "tee" ∷ "t-shirt" ∷ "parka" ∷ "fleece" ∷ "crew"
          ∷ "crewneck" ∷ "polo" ∷ "lounge" ∷ "dkny" ∷ "clothing" ∷ "mondetta" ∷ "vest" ∷ "top"
          ∷ "adidas" ∷ "tshirt" ∷ "tee shirt" ∷ "tshrit" ∷ "thong" ∷ "tankini" ∷ "swimwear" ∷ "knix"
          ∷ [],
    )
    ∷ (
      "Indoor Supplies",
      "paper towel" ∷ "toilet paper" ∷ "tissue" ∷ "napkin" ∷ "detergent" ∷ "laundry" ∷ "dish soap"
          ∷ "dishwasher" ∷ "soap" ∷ "cleaner" ∷ "cleaning" ∷ "garbage bag" ∷ "garbage bags"
          ∷ "kitchen bag" ∷ "ziplock" ∷ "foil" ∷ "plastic wrap" ∷ "parchment" ∷ "sponge" ∷ "sponges"
          ∷ "batteries" ∷ "battery" ∷ "light bulb" ∷ "lightbulb" ∷ "bulb" ∷ "bulbs" ∷ "kleenex"
          ∷ "wipes" ∷ "sanitizer" ∷ "disinfect" ∷ "trash bag" ∷ "trash bags" ∷ "plate" ∷ "plates"
          ∷ "bounty" ∷ "swiffer" ∷ [],
    )
    ∷ (
      "Outdoor Supplies",
      "soil" ∷ "mulch" ∷ "garden" ∷ "planter" ∷ "hose" ∷ "bbq" ∷ "propane" ∷ "charcoal" ∷ "patio"
          ∷ "deck" ∷ "outdoor" ∷ "lawn" ∷ "grass seed" ∷ "fertilizer" ∷ "seed" ∷ "pool" ∷ "camping"
          ∷ "cooler" ∷ "bug spray" ∷ "insect" ∷ "weed" ∷ "landscape" ∷ [],
    )
    ∷ (
      "Groceries",
      "milk" ∷ "bread" ∷ "banana" ∷ "bananas" ∷ "apple" ∷ "apples" ∷ "orange" ∷ "oranges" ∷ "berry"
          ∷ "berries" ∷ "chicken" ∷ "beef" ∷ "pork" ∷ "fish" ∷ "salmon" ∷ "shrimp" ∷ "cheese"
          ∷ "yogurt" ∷ "egg" ∷ "eggs" ∷ "butter" ∷ "cream" ∷ "lettuce" ∷ "tomato" ∷ "potato"
          ∷ "rice" ∷ "pasta" ∷ "bean" ∷ "beans" ∷ "pizza" ∷ "cereal" ∷ "chips" ∷ "cracker"
          ∷ "cookies" ∷ "snack" ∷ "granola" ∷ "juice" ∷ "water" ∷ "coffee" ∷ "tea" ∷ "soup"
          ∷ "broth" ∷ "frozen" ∷ "fruit" ∷ "vegetable" ∷ "veggie" ∷ "meat" ∷ "tim hortons"
          ∷ "bakery" ∷ "muffin" ∷ "croissant" ∷ "bagel" ∷ "bagels" ∷ "wrap" ∷ "tortilla" ∷ "pita"
          ∷ "salsa" ∷ "sauce" ∷ "olive oil" ∷ "oil" ∷ "vinegar" ∷ "nuts" ∷ "almond" ∷ "cashew"
          ∷ "peanut" ∷ "candy" ∷ "chocolate" ∷ "pop" ∷ "soda" ∷ "sparkling" ∷ "drink" ∷ "beverage"
          ∷ "watermelon" ∷ "straw" ∷ "hydro" ∷ [],
    )
    ∷ []
